-- ===== src/Slots/Emptied.antt =====
-- Emptying a slot of a table.
use mathlib.Core.Path.{subst}
use mathlib.Core.Option.{some-injective}
use cudy_wr3600_openwrt.Prelude.{
  Bool-cases, inl, inr, All-set, length-set, sum_of-set, sym, ap, ◌∙◌, List, [], arith, get_elem?,
  if◌then◌else◌, refl, set, some, suc, sum_of, zero, ℕ, ◌==◌, ◌∷◌, ◌≡◌, ◌≢◌, ◌≤◌,
}
use cudy_wr3600_openwrt.Slots.{Slot, vacant, value_of}
use cudy_wr3600_openwrt.Slots.Laws.{keyed, IsSlot, IsRegistry, value_of-keyed}

-- A slot that is emptied again after a key was stored in it.
pub set-vacant :
    (i : ℕ) (x y : Slot) (xs : List Slot)
    → get_elem? xs i ≡ some x
    → x ≡ vacant
    → set (set xs i y) i vacant ≡ xs
set-vacant i x y [] at e = refl
set-vacant zero x y (z ∷ xs) at e = ap (λ (w : Slot). w ∷ xs) (sym (some-injective z x at ∙ e))
set-vacant (suc i) x y (z ∷ xs) at e = ap (λ w. z ∷ w) (set-vacant i x y xs at e)

-- The slot of a key that is emptied.
pub value_of-emptied :
    (k i : ℕ) (x : Slot) (xs : List Slot)
    → k ≢ 0
    → IsRegistry xs
    → get_elem? xs i ≡ some x
    → x.key ≡ k
    → value_of k (set xs i vacant) ≡ 0
value_of-emptied k i x xs h v at e =
    let paired = All-set IsSlot xs i vacant v.paired (λ z. refl, λ z. refl) in
    (value_of-keyed k (set xs i vacant) h paired).1
      (ground (arith, sum_of-set (keyed k) xs i vacant at, v.distinct k h))

pub keyed-at :
    (k i : ℕ) (x : Slot) (xs : List Slot)
    → get_elem? xs i ≡ some x
    → x.key ≡ k
    → k ≢ 0
    → 1 ≤ sum_of (keyed k) xs
keyed-at k i x xs at e h = ground (arith, sum_of-set (keyed k) xs i vacant at, e, h)

-- The value of a key that stands in one slot.
pub value_of-at :
    (k i : ℕ) (x : Slot) (xs : List Slot)
    → k ≢ 0
    → sum_of (keyed k) xs ≤ 1
    → get_elem? xs i ≡ some x
    → x.key ≡ k
    → value_of k xs ≡ x.value
unfolding value_of
value_of-at k i x [] h one at e = absurd (ground (arith, at))
value_of-at k zero x (y ∷ xs) h one at e = ground (arith, at, e, h)
value_of-at k (suc i) x (y ∷ xs) h one at e =
    ground
      (arith, value_of-at k i x xs h (omega (arith, one)) at e, keyed-at k i x xs at e h, one, h)

value_of-elsewhere :
    (k m i : ℕ) (x : Slot) (xs : List Slot)
    → k ≢ m
    → m ≢ 0
    → get_elem? xs i ≡ some x
    → x.key ≡ k
    → value_of m (set xs i vacant) ≡ value_of m xs
unfolding value_of
value_of-elsewhere k m i x [] h hm at e = refl
value_of-elsewhere k m zero x (y ∷ xs) h hm at e =
    let key : y.key ≡ k = ap (λ (s : Slot). s.key) (some-injective y x at) ∙ e in
    ground (arith, key, h, hm)
value_of-elsewhere k m (suc i) x (y ∷ xs) h hm at e =
    ground (arith, value_of-elsewhere k m i x xs h hm at e)

-- Emptying the slot of a key takes the key out of the map.
pub value_of-vacated :
    (k m i : ℕ) (x : Slot) (xs : List Slot)
    → k ≢ 0
    → m ≢ 0
    → IsRegistry xs
    → get_elem? xs i ≡ some x
    → x.key ≡ k
    → value_of m (set xs i vacant) ≡ (if k == m then 0 else value_of m xs)
value_of-vacated k m i x xs h hm v at e = elim (Bool-cases (k == m)) [
  | inl same ↦
      let gone = value_of-emptied k i x xs h v at e in
      let is : k ≡ m = ground (arith, same) in
      rw same (subst (λ n. value_of n (set xs i vacant) ≡ 0) is gone)
  | inr other ↦ rw other (value_of-elsewhere k m i x xs (λ z. ground (arith, z, other)) hm at e)
]

pub vacated-IsRegistry :
    (i : ℕ) (x : Slot) (xs : List Slot)
    → IsRegistry xs
    → get_elem? xs i ≡ some x
    → IsRegistry (set xs i vacant)
vacated-IsRegistry i x xs v at = record {
  sized = length-set xs i vacant ∙ v.sized;
  paired = All-set IsSlot xs i vacant v.paired (λ z. refl, λ z. refl);
  distinct = λ k hk. ground (arith, sum_of-set (keyed k) xs i vacant at, v.distinct k hk, hk);
}
