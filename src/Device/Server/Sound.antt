-- ===== src/Device/Server/Sound.antt =====
-- crates/infinigpu-device/src/lib.rs: what every sequence of requests keeps of the device.
use infinigpu.Prelude.{ℕ, ◌≡◌, List, [], ◌∷◌, length}
use infinigpu.Device.Process.Ledger.{Same}
use infinigpu.Device.Resources.{new_table}
use infinigpu.Device.Dispatch.{Bytes}
use infinigpu.Device.Backend.{Backend}
use infinigpu.Device.Regs
use infinigpu.Device.Server.{Request, reads, writes, maps, unmaps, resets, sets_irqs}

-- Two states that agree on what is kept.
record Alike (s s' : Backend) : Type 0 where
  table : s'.resources ≡ s.resources
  surface : s'.last_scanout ≡ s.last_scanout
  streamed : s'.streamed ≡ s.streamed
  panicked : s'.panicked ≡ s.panicked
  same : Same s s'

-- The number of bytes that a request asks for.
abbrev pub asked : Request → ℕ
asked (reads region off n) = n
asked (writes now region off bs) = 0
asked (maps address size fd) = 0
asked (unmaps all address) = 0
asked resets = 0
asked (sets_irqs index flags start count fds) = 0

abbrev pub Answers : List Request → List Bytes → Type 0
Answers [] [] = Unit
Answers [] (out ∷ outs) = ⊥
Answers (r ∷ rs) [] = ⊥
Answers (r ∷ rs) (out ∷ outs) = (length out ≡ asked r) × Answers rs outs
