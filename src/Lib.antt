-- ===== src/Lib.antt =====
-- infinigpu: a virtual GPU that guests reach over shared memory. A guest driver submits work
-- through a ring in shared memory; the host's device process drains it, replays it on the GPU, and
-- a broker decides which VMs may use the GPU, when, and with how much memory.
--
-- The files, and the code that each is about:
--
-- * Ring and its modules: `crates/infinigpu-ring/src/lib.rs`, the ring between guest and host.
--   `Ring` has the state and one function for each method of `Ring` (`from_parts`, `push`, `pop`,
--   `retire`, `is_fence_signaled`, ...). Indices are `u32` values that run freely and wrap at 2 ^
--   32. `Ring.Queue` is the abstract bounded queue, `Ring.Refine` compares the ring with it,
--   `Ring.Fence` is about seqnos and fences, and `Ring.Threads` runs `push` and `pop` at the same
--   time, one load or store to a step.
-- * Sched and its modules: `crates/infinigpu-sched/src/lib.rs`, the GPU broker. `Sched` has the
--   policies and the state, `Sched.Bucket` one VM's token bucket (`VmState::refill`, and what
--   `begin` and `record` do to one VM), and `Sched.Broker` the calls of `GpuBroker` under the state
--   lock (`admit`, `adjust_vram`, `begin`, `record`, `release`), each a function from the state to
--   the new state and its result. The clock's reading is an argument. `Sched.Broker.Ledger` has the
--   invariant that all calls keep.
-- * Device and its modules: `crates/infinigpu-device`, the host's device process.
--   `Device.Resources` is `src/resource.rs`, the table of blobs and scanouts, with `Valid` (when a
--   table is well formed), `Answers` (what each answer says) and `Invariant`. `Device.Dispatch` is
--   `execute_resource` of `src/dispatch.rs`: it reads the bodies of
--   `crates/infinigpu-abi/src/wire.rs` through a record of readers, which stands for the zerocopy
--   library. `Device.Dma` is the table of mappings of `src/dma.rs`, with the copies through it in
--   `Access`, `Device.Drain` is `src/drain.rs` on the ring of `Ring`, and `Device.Mailbox` is
--   `src/mailbox.rs`. The others are about `src/lib.rs`: `Device.Backend` has the fields of
--   `InfinigpuBackend` that the model reads, with the admission, the accounting and the reset, on
--   the broker of `Sched`; `Device.Registers` is the register file of BAR0 (`bar0_read_u32`,
--   `bar0_write_u32`, and the transfers by bytes), with the offsets of
--   `crates/infinigpu-abi/src/regs.rs` in `Device.Regs`; `Device.Scanout` is `present_scanout` and
--   `present_scanout_damaged`, where `Paint` and `Pixels` are about the loop over rows and the
--   conversion of a row, `Surface` about the damage, `Torn` about failure and `Shown` about what is
--   shown, and `Size` and `Frames` about the sizes; `Device.Cursor` is `handle_cursor_update`, with
--   its messages in `Messages`; `Device.Vulkan` is `submit_vulkan` and `render_clear_present`, with
--   what they leave alone in `Returns`, and the broker's entry in `Ledger`, on `run_timed` of
--   `crates/infinigpu-sched/src/lib.rs` in `Sched.Broker.Run` (`Waits` is about its wait);
--   `Device.Process` is `execute_descriptor` and `dispatch_submit`, on the presents, the cursor,
--   `Device.Vulkan` and `Device.Dispatch`, with `Aside`, `Ledger` and `Kept` about what one
--   present, cursor update or outcome keeps, and `Whole` about a batch; `Device.Engine` is
--   `process_ring` and `drain_ctx`, which view the shared memory as a ring of `Ring` and drain it
--   by `Device.Drain`, with its panics in `Safe` and the batch and the page in `Drains`, on the
--   words of the page in `Words`; `Device.Server` is the requests of the vfio-user server on all of
--   these, with sequences of requests in `Sound`, and `Device.Config` the configuration space of
--   `src/config.rs`; `Device.Forwarded` is `decode_forwarded`, and its children `Checks` and
--   `CmdList` are `decode_forwarded_cmdlist`, where `Safe` states what a safe draw is, `Split` is
--   about the sections, `Loops`, `Scalars` and `Accepted` about the parts of the decoder, and
--   `Code` and `Safety` about its result.
-- * Pixel and its modules: `crates/infinigpu-pixel/src/lib.rs`. `Pixel.Queue` is `ClientQueue`, the
--   bounded queue of one viewer (`Session` is a viewer's session with it, `Decodable` and `Shed`
--   are about what the viewer is sent and what is dropped), `Pixel.Hub` the calls of `Hub` under
--   its lock, `Pixel.Header` the byte layout of `FrameHeader` and `PlaneHeader`, `Pixel.Encoder` is
--   an encoder's session and its drain thread, with `frame_hash`, `Deduper` and `Mailbox::put`,
--   `Pixel.Reader` the numbering of the units that it reads, `Pixel.Streamer` is `PixelStreamer`
--   (`Ensured` is about `ensure_encoder`, `Idle` about a picture that stays the same and `Primed`
--   about the cached keyframe), with the feeder thread in `Feeder`, and `Pixel.Splitter` is
--   `AuSplitter`, which cuts an encoder's output into access units (`Units` is about one buffer,
--   `Stream` about a stream in chunks, and `Keyframe` is the keyframe test).
-- * Prelude and its modules: lists, maps, machine words and signed integers over the native
--   numbers.
--
-- A `HashMap` is an association list with at most one entry for each key. Machine words are numbers
-- with their wrap-around written out; theorems about exact values state the range that they need.
-- The loop of `AuSplitter::push` runs on fuel, the length of the buffer, which is enough as each
-- turn cuts off at least four bytes. The loops of `read_bar0` and `write_bar0` run on fuel, the
-- number of bytes, as each turn transfers at least one. The submit engine that a doorbell runs is a
-- parameter of the registers, which `Device.Server` gives them from `Device.Engine`. The readers of
-- wire structures, which are the zerocopy library's, are parameters, and so is what the GPU
-- answers, how long that takes, and the clock's readings while a VM waits for it: the wait of
-- `run_timed` asks the broker at each reading, and a VM that is still throttled at the last one
-- does not return, which theorems about commands rule out by a hypothesis. The shared words of the
-- ring are read and written in the order of the two threads' program texts, which the Release and
-- Acquire orderings give for words that have one writer.
--
-- Not modelled: the run lock of `run_timed`; logging and telemetry; the construction of the device
-- from its environment and the loop of the vfio-user server; the latency histograms; the replay on
-- the GPU; the dump of frames to files; the processes and the sockets of `infinigpu-pixel`; the
-- other crates.
pub mod Device
pub mod Pixel
pub mod Prelude
pub mod Ring
pub mod Sched
