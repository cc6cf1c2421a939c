-- ===== src/Dma/Flags.antt =====
-- The translated allocation flags of shim_gfp.h, bit by bit.
use cudy_wr3600_openwrt.Prelude.{
  ap, get_elem?, refl, some, ◌-◌, ◌≢◌, All, Bool-cases, List, [], inl, inr, ◌<◌, ◌∙◌, ◌∷◌, ◌≤◌,
  arith, if◌then◌else◌, suc, zero, ℕ, ◌%◌, ◌==◌, ◌^◌, ◌≡◌,
}
use mathlib.Core.Option.{some-injective}
use Prim.Native.Nat.{bit_or, max}
use cudy_wr3600_openwrt.Dma.Gfp.{
  GfpFlag, write, nowarn, retry_mayfail, nofail, noretry, memalloc, comp, zero_page, nomemalloc,
  hardwall, thisnode, high, account, direct_reclaim, kswapd_reclaim, nolockdep, gfp_table,
  map_flags, shim_gfp419,
}
use cudy_wr3600_openwrt.Prelude.Masks.{bit_at-low, bit_at, bit_at-bit_or, bit_at-pow, bit_at-mod}

-- The vendor's number for a flag.
abbrev pub vendor_bit : GfpFlag → ℕ
vendor_bit write = 8
vendor_bit nowarn = 9
vendor_bit retry_mayfail = 10
vendor_bit nofail = 11
vendor_bit noretry = 12
vendor_bit memalloc = 13
vendor_bit comp = 14
vendor_bit zero_page = 15
vendor_bit nomemalloc = 16
vendor_bit hardwall = 17
vendor_bit thisnode = 18
vendor_bit high = 19
vendor_bit account = 20
vendor_bit direct_reclaim = 21
vendor_bit kswapd_reclaim = 22
vendor_bit nolockdep = 23

-- Whether one of the MAP lines sets the bit number `k`, where the native flags stand at `place`.
abbrev set_by : (GfpFlag → ℕ) → ℕ → ℕ → List (ℕ × GfpFlag) → ℕ
set_by place old k [] = 0
set_by place old k ((bit, flag) ∷ rest) =
    max (if place flag == k then bit_at bit old else 0) (set_by place old k rest)

above_low : (k a : ℕ) → 8 ≤ k → bit_at k (a % 2 ^ 8) ≡ 0
above_low k a h = ground (arith, bit_at-mod k 8 a)

kept_low : (k a : ℕ) → k < 8 → bit_at k (a % 2 ^ 8) ≡ bit_at k a
kept_low k a h = ground (arith, bit_at-mod k 8 a)

bit_at-map_flags :
    (place : GfpFlag → ℕ) (old k flags : ℕ) (table : List (ℕ × GfpFlag))
    → bit_at k (map_flags (λ f. 2 ^ place f) old flags table)
      ≡ max (bit_at k flags) (set_by place old k table)
unfolding map_flags
bit_at-map_flags place old k flags [] = omega arith
bit_at-map_flags place old k flags ((bit, flag) ∷ rest) =
    bit_at-map_flags place old k
      (if bit_at bit old == 0 then flags else bit_or flags (2 ^ place flag)) rest
    ∙ ground (
      arith,
      bit_at-low bit old,
      bit_at-low k flags,
      bit_at-bit_or k flags (2 ^ place flag),
      bit_at-pow k (place flag),
    )

-- A table that has the vendor's number for each of its flags sets the place of a flag only by that
-- flag's own line.
set_by-at :
    (place : GfpFlag → ℕ) (old : ℕ) (flag : GfpFlag) (table : List (ℕ × GfpFlag))
    → ((f g : GfpFlag) → place f ≡ place g → f ≡ g)
    → All (λ e. e.0 ≡ vendor_bit e.1) table
    → set_by place old (place flag) table ≤ bit_at (vendor_bit flag) old
set_by-at place old flag [] one v = omega arith
set_by-at place old flag ((bit, f) ∷ rest) one v = elim (Bool-cases (place f == place flag)) [
  | inl e ↦
      let same : f ≡ flag = one f flag (ground (arith, e)) in
      ground (
        arith,
        set_by-at place old flag rest one v.1,
        ap (λ k. bit_at k old) (v.0 ∙ ap vendor_bit same),
      )
  | inr e ↦ ground (arith, e, set_by-at place old flag rest one v.1)
]

set_by-listed :
    (place : GfpFlag → ℕ) (old i bit : ℕ) (flag : GfpFlag) (table : List (ℕ × GfpFlag))
    → get_elem? table i ≡ some (bit, flag)
    → bit_at bit old ≤ set_by place old (place flag) table
set_by-listed place old i bit flag [] h = absurd (ground (arith, h))
set_by-listed place old zero bit flag ((b, f) ∷ rest) h =
    let same = some-injective (b, f) (bit, flag) h in
    let bits : bit_at b old ≡ bit_at bit old = ap (λ e. bit_at e.0 old) same in
    let places : place f ≡ place flag = ap (λ e. place e.1) same in ground (arith, bits, places)
set_by-listed place old (suc i) bit flag ((b, f) ∷ rest) h =
    omega (arith, set_by-listed place old i bit flag rest h)

listed : (flag : GfpFlag) → get_elem? gfp_table (vendor_bit flag - 8) ≡ some (vendor_bit flag, flag)
listed flag = ground arith

gfp_table-vendor_bit : All (λ e. e.0 ≡ vendor_bit e.1) gfp_table
gfp_table-vendor_bit = ground arith

set_by-none :
    (place : GfpFlag → ℕ) (old k : ℕ) (table : List (ℕ × GfpFlag))
    → ((f : GfpFlag) → place f ≢ k)
    → set_by place old k table ≡ 0
set_by-none place old k [] h = refl
set_by-none place old k ((b, f) ∷ rest) h = ground (arith, h f, set_by-none place old k rest h)

-- Where the running kernel's flags are single bits at places of their own above the lowest eight, each
-- of them is set exactly when the vendor's flag is, and the lowest eight bits are kept.
pub bit_at-shim_gfp419 :
    (place : GfpFlag → ℕ) (old : ℕ)
    → ((f g : GfpFlag) → place f ≡ place g → f ≡ g)
    → ((f : GfpFlag) → 8 ≤ place f)
    → ((f : GfpFlag)
        → bit_at (place f) (shim_gfp419 (λ g. 2 ^ place g) old) ≡ bit_at (vendor_bit f) old)
      × ((k : ℕ) → k < 8 → bit_at k (shim_gfp419 (λ g. 2 ^ place g) old) ≡ bit_at k old)
unfolding shim_gfp419
bit_at-shim_gfp419 place old one above = (
  λ f. omega (
    arith,
    bit_at-map_flags place old (place f) (old % 2 ^ 8) gfp_table,
    set_by-at place old f gfp_table one gfp_table-vendor_bit,
    set_by-listed place old (vendor_bit f - 8) (vendor_bit f) f gfp_table (listed f),
    above_low (place f) old (above f),
  ),
  λ k h. omega (
    arith,
    bit_at-map_flags place old k (old % 2 ^ 8) gfp_table,
    set_by-none place old k gfp_table (λ f e. absurd (omega (arith, e, h, above f))),
    kept_low k old h,
  ),
)
