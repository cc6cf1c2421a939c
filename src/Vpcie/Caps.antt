-- ===== src/Vpcie/Caps.antt =====
-- What the PCI core and wl.ko find in the configuration space that vpcie66.c builds.
use cudy_wr3600_openwrt.Prelude.{
  List, [], ap, if◌then◌else◌, pos, true, ◌∷◌, Bool-cases, arith, inl, inr, refl, suc, update, zero,
  ℕ, ◌%◌, ◌*◌, ◌+◌, ◌/◌, ◌<◌, ◌==◌, ◌^◌, ◌∙◌, ◌≡◌, ◌≤◌, ◌⊎◌,
}
use cudy_wr3600_openwrt.Vpcie.{Vdev, successful, store_bytes, load_bytes, access_valid, cfg_read}
use cudy_wr3600_openwrt.Vpcie.Build.{
  cfg_tpl, copy_words, cap_vndr, irq_table, device_words, build_cfg,
}
use cudy_wr3600_openwrt.Vpcie.Access.{store_bytes-outside, half, cfg_read-granted}

irq_table-outside :
    (irq : ℕ → ℕ) (n i b : ℕ) (mem : ℕ → ℕ)
    → (b < cap_vndr + 4 + i * 2) ⊎ (cap_vndr + 4 + (i + n) * 2 ≤ b)
    → irq_table irq n i mem b ≡ mem b
unfolding irq_table
irq_table-outside irq zero i b mem h = refl
irq_table-outside irq (suc n) i b mem h =
    let virq = irq i % 2 ^ 16 in
    let low = update mem (cap_vndr + 4 + i * 2) (virq % 256) in
    irq_table-outside irq n (suc i) b (update low (cap_vndr + 5 + i * 2) (virq / 256 % 256))
      (ground (arith, h))
    ∙ ground (arith, h)

irq_table-at :
    (irq : ℕ → ℕ) (n i k : ℕ) (mem : ℕ → ℕ)
    → (i ≤ k) × (k < i + n)
    → load_bytes 2 (cap_vndr + 4 + k * 2) (irq_table irq n i mem) ≡ irq k % 2 ^ 16
unfolding irq_table load_bytes
irq_table-at irq zero i k mem h = absurd (omega (arith, h))
irq_table-at irq (suc n) i k mem h =
    let virq = irq i % 2 ^ 16 in
    let low = update mem (cap_vndr + 4 + i * 2) (virq % 256) in
    let next = update low (cap_vndr + 5 + i * 2) (virq / 256 % 256) in
    elim (Bool-cases (i == k)) [
      | inl e ↦
          let same : irq k ≡ irq i = ap irq (ground (arith, e)) in
          ground (
            arith,
            e,
            same,
            irq_table-outside irq n (suc i) (cap_vndr + 4 + k * 2) next (ground (arith, e)),
            irq_table-outside irq n (suc i) (suc (cap_vndr + 4 + k * 2)) next (ground (arith, e)),
          )
      | inr e ↦ irq_table-at irq n (suc i) k next (ground (arith, h, e))
    ]

-- A byte of the template that no field is patched over.
device_words-outside :
    (vh : Vdev) (mem : ℕ → ℕ) (b : ℕ)
    → ((0x30 ≤ b) × (b < 0x3c)) ⊎ (0x40 ≤ b)
    → device_words vh mem b ≡ mem b
unfolding device_words
device_words-outside vh mem b h =
    store_bytes-outside 4 0x3c _ b _ (ground (arith, h))
    ∙ store_bytes-outside 4 0x2c _ b _ (ground (arith, h))
    ∙ store_bytes-outside 4 0x10 _ b _ (ground (arith, h))
    ∙ store_bytes-outside 4 8 _ b _ (ground (arith, h))
    ∙ store_bytes-outside 4 0 _ b mem (ground (arith, h))

-- The words before the interrupt table is filled in.
abbrev pub words_of : Vdev → ℕ → ℕ
words_of vh = device_words vh (copy_words 0 cfg_tpl vh.cfg)

build_cfg-outside :
    (vh : Vdev) (b : ℕ)
    → vh.nirq ≤ 10
    → (b < 0x6a) ⊎ (0x80 ≤ b)
    → (build_cfg vh).cfg b ≡ words_of vh b
unfolding build_cfg
build_cfg-outside vh b n h =
    irq_table-outside vh.irq vh.nirq 0 b _ (ground (arith, h, n)) ∙ ground (arith, h)

load_bytes-agree :
    (n at : ℕ) (f g : ℕ → ℕ)
    → ((i : ℕ) → at ≤ i → i < at + n → f i ≡ g i)
    → load_bytes n at f ≡ load_bytes n at g
unfolding load_bytes
load_bytes-agree zero at f g h = refl
load_bytes-agree (suc n) at f g h = omega (
  arith,
  h at (omega arith) (omega arith),
  load_bytes-agree n (suc at) f g (λ i lo hi. h i (omega (arith, lo)) (omega (arith, hi))),
)

-- A word of the built space that stands before the capabilities.
pub build_cfg-word :
    (vh : Vdev) (at : ℕ)
    → vh.nirq ≤ 10
    → at + 4 ≤ 0x6a
    → load_bytes 4 at (build_cfg vh).cfg ≡ load_bytes 4 at (words_of vh)
build_cfg-word vh at n h =
    load_bytes-agree 4 at (build_cfg vh).cfg (words_of vh)
      (λ i lo hi. build_cfg-outside vh i n (inl (omega (arith, hi, h))))

-- The capability list as the PCI core walks it: identifiers and places, from the pointer `at`.
pub walk_caps : ℕ → ℕ → (ℕ → ℕ) → List (ℕ × ℕ)
walk_caps zero at cfg = []
walk_caps (suc n) at cfg =
    let rest = walk_caps n (cfg (suc at)) cfg in if at == 0 then [] else (cfg at, at) ∷ rest

template-byte :
    (vh : Vdev) (b v : ℕ)
    → vh.nirq ≤ 10
    → (b < 0x6a) ⊎ (0x80 ≤ b)
    → ((0x30 ≤ b) × (b < 0x3c)) ⊎ (0x40 ≤ b)
    → copy_words 0 cfg_tpl vh.cfg b ≡ v
    → (build_cfg vh).cfg b ≡ v
template-byte vh b v n h k e =
    build_cfg-outside vh b n h ∙ device_words-outside vh (copy_words 0 cfg_tpl vh.cfg) b k ∙ e

-- With at most ten interrupts the capabilities that a walk finds are power management, MSI, the vendor's
-- with the interrupts, MSI-X and PCI Express, and the walk ends.
pub walk_caps-build_cfg :
    (vh : Vdev)
    → vh.nirq ≤ 10
    → walk_caps 6 ((build_cfg vh).cfg 0x34) (build_cfg vh).cfg
      ≡ (0x01, 0x48) ∷ (0x05, 0x58) ∷ (0x09, 0x68) ∷ (0x11, 0xa0) ∷ (0x10, 0xac) ∷ []
unfolding walk_caps copy_words store_bytes
walk_caps-build_cfg vh n =
    let t : (b v : ℕ)
        → (b < 0x6a) ⊎ (0x80 ≤ b)
        → ((0x30 ≤ b) × (b < 0x3c)) ⊎ (0x40 ≤ b)
        → copy_words 0 cfg_tpl vh.cfg b ≡ v
        → (build_cfg vh).cfg b ≡ v =
      λ b v h k e. template-byte vh b v n h k e in
    rw
      (
        t 0x34 0x48 (inl (omega arith)) (inl (omega arith)) refl,
        t 0x48 0x01 (inl (omega arith)) (inr (omega arith)) refl,
        t 0x49 0x58 (inl (omega arith)) (inr (omega arith)) refl,
        t 0x58 0x05 (inl (omega arith)) (inr (omega arith)) refl,
        t 0x59 0x68 (inl (omega arith)) (inr (omega arith)) refl,
        t 0x68 0x09 (inl (omega arith)) (inr (omega arith)) refl,
        t 0x69 0xa0 (inl (omega arith)) (inr (omega arith)) refl,
        t 0xa0 0x11 (inr (omega arith)) (inr (omega arith)) refl,
        t 0xa1 0xac (inr (omega arith)) (inr (omega arith)) refl,
        t 0xac 0x10 (inr (omega arith)) (inr (omega arith)) refl,
        t 0xad 0 (inr (omega arith)) (inr (omega arith)) refl,
      )
      refl

-- Each interrupt of the device is read back from the vendor capability, cut to 16 bits.
pub irq-build_cfg :
    (vh : Vdev) (number devfn k : ℕ)
    → access_valid vh number devfn ≡ true
    → vh.nirq ≤ 10
    → k < vh.nirq
    → cfg_read (build_cfg vh) number devfn (pos (cap_vndr + 4 + k * 2)) 2 0
      ≡ (successful, vh.irq k % 2 ^ 16)
unfolding build_cfg
irq-build_cfg vh number devfn k h n lt =
    let place = cap_vndr + 4 + k * 2 in
    let table : load_bytes 2 place (build_cfg vh).cfg ≡ vh.irq k % 2 ^ 16 =
      irq_table-at vh.irq vh.nirq 0 k _ (omega arith, omega (arith, lt)) in
    cfg_read-granted (build_cfg vh) number devfn place 0 half h (omega (arith, n, lt)) (omega arith)
    ∙ ap (λ x. (successful, x)) (omega (arith, table))
