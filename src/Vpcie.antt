-- ===== src/Vpcie.antt =====
-- The emulated PCI configuration space of port66/vpcie66/vpcie66.c.
pub mod Build
pub mod Probe
pub mod Access
pub mod Caps
pub mod Identity
pub mod Release
use cudy_wr3600_openwrt.Prelude.{
  Bool, if◌then◌else◌, ltb, negsuc, not, pos, suc, update, zero, ℕ, ℤ, ◌%◌, ◌&&◌, ◌*◌, ◌+◌, ◌-◌,
  ◌/◌, ◌==◌, ◌^◌,
}

-- `struct vpcie66_vdev`; `cfg` is the memory from its array on, byte by byte.
pub record Vdev : Type 0 where
  pub coreid : ℕ
  pub devid : ℕ
  pub domain : ℕ
  pub bus : ℕ
  pub slot : ℕ
  pub rev : ℕ
  pub win_start : ℕ
  pub win_size : ℕ
  pub irq : ℕ → ℕ
  pub nirq : ℕ
  pub bar_size : ℕ → ℕ
  pub cfg : ℕ → ℕ

pub data Pcibios : Type 0 where
  successful device_not_found bad_register_number : Pcibios

-- A little-endian value of `n` bytes at a place in memory.
unfoldable pub store_bytes : ℕ → ℕ → ℕ → (ℕ → ℕ) → ℕ → ℕ
store_bytes zero at v mem = mem
store_bytes (suc n) at v mem = store_bytes n (suc at) (v / 256) (update mem at (v % 256))

unfoldable pub load_bytes : ℕ → ℕ → (ℕ → ℕ) → ℕ
load_bytes zero at mem = 0
load_bytes (suc n) at mem = mem at + 256 * load_bytes n (suc at) mem

-- `VPCIE66_CFG_SIZE`
abbrev pub cfg_size : ℕ
cfg_size = 256

abbrev pub bar_first : ℕ
bar_first = 0x10

abbrev pub bar_last : ℕ
bar_last = 0x24

abbrev pub rom_address : ℕ
rom_address = 0x30

abbrev pub ones : ℕ
ones = 2 ^ 32 - 1

-- `vpcie66_access_valid`, with PCI_SLOT written out.
abbrev pub access_valid : Vdev → ℕ → ℕ → Bool
access_valid vh number devfn = (number == vh.bus) && (devfn / 8 % 32 == vh.slot)

-- `~(size - 1)` on 32 bits.
abbrev pub size_mask : ℕ → ℕ
size_mask size = ones - (size + ones) % 2 ^ 32

-- What a read of four bytes answers for the word `v`.
unfoldable pub read_word : Vdev → ℕ → ℕ → ℕ
read_word vh at v =
    if (v == ones) && not (ltb at bar_first) && not (ltb bar_last at)
    then size_mask (vh.bar_size ((at - bar_first) / 4))
    else if at == rom_address
    then ones
    else v

-- `vpcie66_cfg_read`; `val` is `*val` before and after.
unfoldable pub cfg_read : Vdev → ℕ → ℕ → ℤ → ℕ → ℕ → Pcibios × ℕ
cfg_read vh number devfn (negsuc n) size val =
    (if access_valid vh number devfn then bad_register_number else device_not_found, val)
cfg_read vh number devfn (pos at) size val =
    if not (access_valid vh number devfn)
    then (device_not_found, val)
    else if not (ltb at cfg_size)
    then (bad_register_number, val)
    else if size == 1
    then (successful, vh.cfg at)
    else if size == 2
    then (successful, val / 2 ^ 16 * 2 ^ 16 + load_bytes 2 at vh.cfg)
    else if size == 4
    then (successful, read_word vh at (load_bytes 4 (at / 4 * 4) vh.cfg))
    else (bad_register_number, val)

-- `vpcie66_cfg_write`
unfoldable pub cfg_write : Vdev → ℕ → ℕ → ℤ → ℕ → ℕ → Pcibios × Vdev
cfg_write vh number devfn (negsuc n) size val =
    (if access_valid vh number devfn then bad_register_number else device_not_found, vh)
cfg_write vh number devfn (pos at) size val =
    if not (access_valid vh number devfn)
    then (device_not_found, vh)
    else if not (ltb at cfg_size)
    then (bad_register_number, vh)
    else if size == 1
    then (successful, record vh { cfg = update vh.cfg at (val % 256) })
    else if size == 2
    then (successful, record vh { cfg = store_bytes 2 at val vh.cfg })
    else if size == 4
    then (successful, record vh { cfg = store_bytes 4 (at / 4 * 4) val vh.cfg })
    else (bad_register_number, vh)
