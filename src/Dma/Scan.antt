-- ===== src/Dma/Scan.antt =====
-- The loop of shim_dma_bind in shim_dma.c.
use cudy_wr3600_openwrt.Prelude.{
  Option, Bool, List, Result, [], ap, arith, err, false, get_elem?, if◌then◌else◌, inl, inr, none,
  ok, refl, some, suc, sum_of, true, ℕ, ◌-◌, ◌<◌, ◌==◌, ◌∙◌, ◌∷◌, ◌≡◌, ◌≤◌, ◌⊎◌,
}
use mathlib.Core.Option.{some-injective}
use cudy_wr3600_openwrt.Slots.{Slot}
use cudy_wr3600_openwrt.Slots.Laws.{keyed}
use cudy_wr3600_openwrt.Dma.{eexist, scan}

abbrev seen_after : ℕ → Slot → Option ℕ → Option ℕ
seen_after i x slot = elim slot [ some k ↦ some k | none ↦ if x.key == 0 then some i else none ]

-- What the loop of a bind finds from slot `i` on.
abbrev pub Scanned : ℕ → ℕ → Option ℕ → List Slot → Result (Option ℕ) → Type 0
Scanned old i slot xs (err e) = (e ≡ eexist) × (0 < sum_of (keyed old) xs)
Scanned old i slot xs (ok none) =
    (sum_of (keyed old) xs ≡ 0) × (slot ≡ none) × (sum_of (keyed 0) xs ≡ 0)
Scanned old i slot xs (ok (some j)) =
    (sum_of (keyed old) xs ≡ 0)
    × ((slot ≡ some j) ⊎ ((i ≤ j) × (x : Slot) × (get_elem? xs (j - i) ≡ some x) × (x.key ≡ 0)))

later_place :
    (i j : ℕ) (x : Slot) (xs : List Slot)
    → suc i ≤ j
    → (y : Slot) × (get_elem? xs (j - suc i) ≡ some y) × (y.key ≡ 0)
    → (i ≤ j) × (y : Slot) × (get_elem? (x ∷ xs) (j - i) ≡ some y) × (y.key ≡ 0)
later_place i j x xs le (y, at, free) =
    let next : j - i ≡ suc (j - suc i) = omega arith in
    (omega arith, y, ap (get_elem? (x ∷ xs)) next ∙ at, free)

here_place :
    (i j : ℕ) (x : Slot) (xs : List Slot)
    → i ≡ j
    → x.key ≡ 0
    → (i ≤ j) × (y : Slot) × (get_elem? (x ∷ xs) (j - i) ≡ some y) × (y.key ≡ 0)
here_place i j x xs e free =
    let first : j - i ≡ 0 = omega (arith, e) in
    (omega (arith, e), x, ap (get_elem? (x ∷ xs)) first, free)

Scanned-later :
    (old i j : ℕ) (x : Slot) (xs : List Slot) (slot : Option ℕ) (b : Bool)
    → (x.key == old) ≡ false
    → (x.key == 0) ≡ b
    → Scanned old
        (suc i)
        (elim slot as (λ o. Option ℕ) [ some k ↦ some k | none ↦ if b then some i else none ])
        xs
        (ok (some j))
    → Scanned old i slot (x ∷ xs) (ok (some j))
Scanned-later old i j x xs (some k) b e f (miss, inl s) = (ground arith, inl s)
Scanned-later old i j x xs slot b e f (miss, inr (le, y, at, free)) =
    (ground arith, inr (later_place i j x xs le (y, at, free)))
Scanned-later old i j x xs none true e f (miss, inl s) =
    let same = some-injective i j s in (ground arith, inr (here_place i j x xs same (ground arith)))
Scanned-later old i j x xs none false e f (miss, inl s) = absurd (ground (arith, s))

Scanned-if :
    (b : Bool) (old i : ℕ) (x : Slot) (xs : List Slot) (slot : Option ℕ) (r : Result (Option ℕ))
    → (x.key == old) ≡ b
    → Scanned old (suc i) (seen_after i x slot) xs r
    → Scanned old i slot (x ∷ xs) (if b then err eexist else r)
Scanned-if true old i x xs slot r e s = (refl, ground arith)
Scanned-if false old i x xs slot (err f) e s = ground (arith, s)
Scanned-if false old i x xs none (ok none) e s = ground (arith, s)
Scanned-if false old i x xs (some k) (ok none) e s = ground (arith, s)
Scanned-if false old i x xs slot (ok (some j)) e s =
    Scanned-later old i j x xs slot (x.key == 0) e refl s

pub scan-Scanned :
    (old i : ℕ) (slot : Option ℕ) (xs : List Slot) → Scanned old i slot xs (scan old i slot xs)
unfolding scan
scan-Scanned old i none [] = (refl, refl, refl)
scan-Scanned old i (some k) [] = (refl, inl refl)
scan-Scanned old i slot (x ∷ xs) =
    Scanned-if (x.key == old) old i x xs slot (scan old (suc i) (seen_after i x slot) xs) refl
      (scan-Scanned old (suc i) (seen_after i x slot) xs)

-- The free slot that a scan of the whole registry answers with.
pub free_slot :
    (old i : ℕ) (xs : List Slot)
    → Scanned old 0 none xs (ok (some i))
    → (sum_of (keyed old) xs ≡ 0) × (x : Slot) × (get_elem? xs i ≡ some x) × (x.key ≡ 0)
free_slot old i xs (fresh, inl s) = absurd (ground (arith, s))
free_slot old i xs (fresh, inr (le, x, at, free)) =
    let same : i ≡ i - 0 = omega arith in (fresh, x, ap (get_elem? xs) same ∙ at, free)
