-- ===== src/Vpcie/Build.antt =====
-- What vpcie66.c puts into the configuration space: the template and the fields of the device tree.
use cudy_wr3600_openwrt.Prelude.{List, [], suc, update, zero, ℕ, ◌%◌, ◌*◌, ◌+◌, ◌/◌, ◌^◌, ◌∷◌}
use Prim.Native.Nat.{bit_or}
use cudy_wr3600_openwrt.Vpcie.{Vdev, store_bytes}

-- `vpcie66_cfg_tpl`
abbrev pub cfg_tpl : List ℕ
cfg_tpl =
    0x00000000 ∷ 0x00100000 ∷ 0x00000000 ∷ 0x00000000 ∷ 0x00000000 ∷ 0x00000000 ∷ 0x00000004
    ∷ 0x00000000 ∷ 0x0000000c ∷ 0x00000000 ∷ 0x00000000 ∷ 0x00000000 ∷ 0x00000000 ∷ 0x00000048
    ∷ 0x00000000 ∷ 0x00000000 ∷ 0x00000000 ∷ 0x00000000 ∷ 0x06035801 ∷ 0x00004108 ∷ 0x00000000
    ∷ 0x00000000 ∷ 0x008b6805 ∷ 0x00000000 ∷ 0x00000000 ∷ 0x00000000 ∷ 0x0000a009 ∷ 0x00000000
    ∷ 0x28100000 ∷ 0x00000000 ∷ 0x00000000 ∷ 0x00000000 ∷ 0x28000000 ∷ 0x00000000 ∷ 0x00000080
    ∷ 0x00000000 ∷ 0x00000000 ∷ 0x00000100 ∷ 0x00000000 ∷ 0x00000000 ∷ 0x003fac11 ∷ 0x00008000
    ∷ 0x00008800 ∷ 0x00020010 ∷ 0x00008f82 ∷ 0x00102c10 ∷ 0x0046dc22 ∷ 0x10220000 ∷ 0x00000000
    ∷ 0x00000000 ∷ 0x00000000 ∷ 0x00000000 ∷ 0x0008081f ∷ 0x00000000 ∷ 0x00000006 ∷ 0x00000002
    ∷ 0x00000000 ∷ 0x00000000 ∷ 0x00000000 ∷ 0x00000000 ∷ 0x00000000 ∷ 0x00000000 ∷ 0x00000000
    ∷ 0x00000000 ∷ []

-- The memcpy of the template: words from a place on.
unfoldable pub copy_words : ℕ → List ℕ → (ℕ → ℕ) → ℕ → ℕ
copy_words at [] mem = mem
copy_words at (w ∷ ws) mem = copy_words (at + 4) ws (store_bytes 4 at w mem)

-- `VPCIE66_CAP_VNDR`
abbrev pub cap_vndr : ℕ
cap_vndr = 0x68

-- The loop over the interrupts of the vendor capability, `n` of them from number `i` on.
unfoldable pub irq_table : (ℕ → ℕ) → ℕ → ℕ → (ℕ → ℕ) → ℕ → ℕ
irq_table irq zero i mem = mem
irq_table irq (suc n) i mem =
    let virq = irq i % 2 ^ 16 in
    let low = update mem (cap_vndr + 4 + i * 2) (virq % 256) in
    irq_table irq n (suc i) (update low (cap_vndr + 5 + i * 2) (virq / 256 % 256))

-- The five words of `vpcie66_build_cfg` that depend on the device: the identity, the class and
-- revision, the base address, the subsystem, and the interrupt line. PCI_VENDOR_ID_BROADCOM is 0x14e4
-- and PCI_CLASS_NETWORK_OTHER 0x0280.
unfoldable pub device_words : Vdev → (ℕ → ℕ) → ℕ → ℕ
device_words vh mem =
    let dev_vend = bit_or (vh.devid * 2 ^ 16 % 2 ^ 32) 0x14e4 in
    let id = store_bytes 4 0 dev_vend mem in
    let class = store_bytes 4 8 (bit_or (0x0280 * 2 ^ 16) vh.rev) id in
    let bar = store_bytes 4 0x10 (bit_or (vh.win_start / 16 * 16 % 2 ^ 32) 4) class in
    let subsystem = store_bytes 4 0x2c dev_vend bar in
    store_bytes 4 0x3c (bit_or 0x100 (vh.irq 1 % 256)) subsystem

-- `vpcie66_build_cfg`
unfoldable pub build_cfg : Vdev → Vdev
build_cfg vh =
    let words = device_words vh (copy_words 0 cfg_tpl vh.cfg) in
    let len = update words (cap_vndr + 2) ((1 + vh.nirq * 2) % 256) in
    let version = update len (cap_vndr + 3) 1 in
    record vh { cfg = irq_table vh.irq vh.nirq 0 version }
