-- ===== src/Device/Config.antt =====
-- crates/infinigpu-device/src/config.rs: the PCI configuration space, with the identifiers of
-- crates/infinigpu-abi/src/ids.rs.
use Prim.Native.Nat.{zero, suc}
use infinigpu.Prelude.{ℕ, ◌+◌, ◌-◌, ◌/◌, ◌%◌, [], ◌∷◌, set}
use infinigpu.Device.Dispatch.{Bytes}

abbrev pub config_space_size : ℕ
config_space_size = 4096

-- The capability of message-signalled interrupts, and its number of vectors.
abbrev pub msix_cap : ℕ
msix_cap = 0x40

abbrev pub msix_vectors : ℕ
msix_vectors = 64

abbrev pub put_u8 : ℕ → ℕ → Bytes → Bytes
put_u8 off v buf = set buf off (v % 256)

abbrev pub put_u16 : ℕ → ℕ → Bytes → Bytes
put_u16 off v buf = put_u8 (off + 1) (v / 256) (put_u8 off v buf)

abbrev pub put_u32 : ℕ → ℕ → Bytes → Bytes
put_u32 off v buf = put_u16 (off + 2) (v / 65536) (put_u16 off v buf)

abbrev pub zero_bytes : ℕ → Bytes
zero_bytes zero = []
zero_bytes (suc n) = 0 ∷ zero_bytes n

unfoldable pub build : Bytes
build = put_u32 (msix_cap + 8) 0x2001 (
    put_u32 (msix_cap + 4) 1 (
      put_u16 (msix_cap + 2) (msix_vectors - 1) (
        put_u8 (msix_cap + 1) 0x00 (
          put_u8 msix_cap 0x11 (
            put_u8 0x34 msix_cap (
              put_u16 0x2e 0x0001 (
                put_u16 0x2c 0x1B36 (
                  put_u8 0x0e 0x00 (
                    put_u8 0x0b (0x0003_8000 / 65536) (
                      put_u8 0x0a (0x0003_8000 / 256) (
                        put_u8 0x09 0x0003_8000 (
                          put_u8 0x08 0x01 (
                            put_u16 0x06 0x0010 (
                              put_u16 0x02 0x0110
                                (put_u16 0x00 0x1B36 (zero_bytes config_space_size))))))))))))))))
