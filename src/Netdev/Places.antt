-- ===== src/Netdev/Places.antt =====
-- Where the registration in shim_netdev.c finds the slot of a notifier.
use cudy_wr3600_openwrt.Prelude.{
  not, Bool, [], ap, arith, false, if◌then◌else◌, inl, inr, refl, suc, true, ◌==◌, ◌∙◌, ◌∷◌, Option,
  List, get_elem?, none, some, sum_of, ℕ, ◌-◌, ◌≡◌, ◌≤◌, ◌⊎◌,
}
use mathlib.Core.Option.{some-injective}
use cudy_wr3600_openwrt.Slots.{Slot}
use cudy_wr3600_openwrt.Slots.Laws.{keyed}
use cudy_wr3600_openwrt.Netdev.Notify.{find_slot, has_key}

-- What the loop finds from slot `i` on.
abbrev pub Placed : ℕ → ℕ → Option ℕ → List Slot → Option ℕ → Type 0
Placed nb i free xs none = (sum_of (keyed nb) xs ≡ 0) × (free ≡ none) × (sum_of (keyed 0) xs ≡ 0)
Placed nb i free xs (some j) =
    ((free ≡ some j) × (sum_of (keyed nb) xs ≡ 0))
    ⊎ ((i ≤ j)
        × (x : Slot) × (get_elem? xs (j - i) ≡ some x)
        × ((x.key ≡ nb) ⊎ ((x.key ≡ 0) × (sum_of (keyed nb) xs ≡ 0))))

abbrev seen_after : ℕ → Slot → Option ℕ → Option ℕ
seen_after i x free = elim free [ some k ↦ some k | none ↦ if x.key == 0 then some i else none ]

abbrev Stands : ℕ → ℕ → ℕ → List Slot → Type 0
Stands nb i j xs =
    (i ≤ j)
    × (x : Slot) × (get_elem? xs (j - i) ≡ some x)
    × ((x.key ≡ nb) ⊎ ((x.key ≡ 0) × (sum_of (keyed nb) xs ≡ 0)))

later_place :
    (nb i j : ℕ) (x : Slot) (xs : List Slot)
    → (x.key == nb) ≡ false
    → Stands nb (suc i) j xs
    → Stands nb i j (x ∷ xs)
later_place nb i j x xs e (le, y, at, inl same) =
    let next : j - i ≡ suc (j - suc i) = omega (arith, le) in
    (omega (arith, le), y, ap (get_elem? (x ∷ xs)) next ∙ at, inl same)
later_place nb i j x xs e (le, y, at, inr (free, none_of)) =
    let next : j - i ≡ suc (j - suc i) = omega (arith, le) in
    (omega (arith, le), y, ap (get_elem? (x ∷ xs)) next ∙ at, inr (free, ground (arith, none_of)))

here_place :
    (nb i j : ℕ) (x : Slot) (xs : List Slot)
    → i ≡ j
    → (x.key ≡ nb) ⊎ ((x.key ≡ 0) × (sum_of (keyed nb) (x ∷ xs) ≡ 0))
    → Stands nb i j (x ∷ xs)
here_place nb i j x xs e why =
    let first : j - i ≡ 0 = omega (arith, e) in
    (omega (arith, e), x, ap (get_elem? (x ∷ xs)) first, why)

Placed-later :
    (nb i j : ℕ) (x : Slot) (xs : List Slot) (free : Option ℕ) (b : Bool)
    → (x.key == nb) ≡ false
    → (x.key == 0) ≡ b
    → Placed nb
        (suc i)
        (elim free as (λ o. Option ℕ) [ some k ↦ some k | none ↦ if b then some i else none ])
        xs
        (some j)
    → Placed nb i free (x ∷ xs) (some j)
Placed-later nb i j x xs (some k) b e f (inl (same, miss)) = inl (same, ground (arith, miss))
Placed-later nb i j x xs free b e f (inr at) = inr (later_place nb i j x xs e at)
Placed-later nb i j x xs none true e f (inl (same, miss)) =
    inr
      (here_place nb i j x xs (some-injective i j same) (inr (ground arith, ground (arith, miss))))
Placed-later nb i j x xs none false e f (inl (same, miss)) = absurd (ground (arith, same))

Placed-if :
    (b : Bool) (nb i : ℕ) (x : Slot) (xs : List Slot) (free r : Option ℕ)
    → (x.key == nb) ≡ b
    → Placed nb (suc i) (seen_after i x free) xs r
    → Placed nb i free (x ∷ xs) (if b then some i else r)
Placed-if true nb i x xs free r e s = inr (here_place nb i i x xs refl (inl (ground arith)))
Placed-if false nb i x xs none none e s = ground (arith, s)
Placed-if false nb i x xs (some k) none e s = ground (arith, s)
Placed-if false nb i x xs free (some j) e s = Placed-later nb i j x xs free (x.key == 0) e refl s

pub find_slot-Placed :
    (nb i : ℕ) (free : Option ℕ) (xs : List Slot) → Placed nb i free xs (find_slot nb i free xs)
unfolding find_slot
find_slot-Placed nb i none [] = (refl, refl, refl)
find_slot-Placed nb i (some k) [] = inl (refl, refl)
find_slot-Placed nb i free (x ∷ xs) =
    Placed-if (x.key == nb) nb i x xs free (find_slot nb (suc i) (seen_after i x free) xs) refl
      (find_slot-Placed nb (suc i) (seen_after i x free) xs)

-- The slot that a search of the whole table answers with.
pub found_slot :
    (nb i : ℕ) (xs : List Slot)
    → Placed nb 0 none xs (some i)
    → (x : Slot) × (get_elem? xs i ≡ some x)
      × ((x.key ≡ nb) ⊎ ((x.key ≡ 0) × (sum_of (keyed nb) xs ≡ 0)))
found_slot nb i xs (inl (s, miss)) = absurd (ground (arith, s))
found_slot nb i xs (inr (le, x, at, why)) =
    let same : i ≡ i - 0 = omega arith in (x, ap (get_elem? xs) same ∙ at, why)

pub has_key-keyed : (nb : ℕ) (xs : List Slot) → has_key nb xs ≡ not (sum_of (keyed nb) xs == 0)
unfolding has_key
has_key-keyed nb [] = refl
has_key-keyed nb (x ∷ xs) = ground (arith, has_key-keyed nb xs)
