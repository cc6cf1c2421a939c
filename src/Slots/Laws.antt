-- ===== src/Slots/Laws.antt =====
-- A table of slots as a map from keys to values.
use cudy_wr3600_openwrt.Prelude.{
  All-set, length-set, sum_of-set, not, ◌&&◌, ◌∙◌, All, Bool, List, [], arith, false, get_elem?,
  if◌then◌else◌, length, refl, set, some, suc, sum_of, true, zero, ℕ, ◌+◌, ◌==◌, ◌↔◌, ◌∷◌, ◌≡◌, ◌≢◌,
  ◌≤◌,
}
use cudy_wr3600_openwrt.Slots.{Slot, vacant, take_out, value_of}

abbrev pub keyed : ℕ → Slot → ℕ
keyed k x = if x.key == k then 1 else 0

abbrev pub holds : ℕ → Slot → ℕ
holds dev x = if x.value == dev then 1 else 0

-- A slot has both a key and a device, or neither.
abbrev pub IsSlot : Slot → Type 0
IsSlot x = (x.key ≡ 0 → x.value ≡ 0) × (x.value ≡ 0 → x.key ≡ 0)

pub record IsRegistry (slots : List Slot) : Type 0 where
  pub sized : length slots ≡ 8
  pub paired : All IsSlot slots
  pub distinct : (k : ℕ) → k ≢ 0 → sum_of (keyed k) slots ≤ 1

pub value_of-keyed :
    (k : ℕ) (xs : List Slot)
    → k ≢ 0
    → All IsSlot xs
    → (value_of k xs ≡ 0) ↔ (sum_of (keyed k) xs ≡ 0)
unfolding value_of
value_of-keyed k [] h v = ground arith
value_of-keyed k (x ∷ xs) h v = ground (arith, v, value_of-keyed k xs h v.1)

pub value_of-null : (xs : List Slot) → value_of 0 xs ≡ 0
unfolding value_of
value_of-null [] = refl
value_of-null (x ∷ xs) = ground (arith, value_of-null xs)

pub value_of-set :
    (old native k j : ℕ) (x : Slot) (xs : List Slot)
    → old ≢ 0
    → k ≢ 0
    → sum_of (keyed old) xs ≡ 0
    → get_elem? xs j ≡ some x
    → x.key ≡ 0
    → value_of k (set xs j (record { key = old; value = native }))
      ≡ (if old == k then native else value_of k xs)
unfolding value_of
value_of-set old native k j x [] h hk fresh at free = absurd (ground (arith, at))
value_of-set old native k zero x (y ∷ xs) h hk fresh at free = ground (arith, at)
value_of-set old native k (suc j) x (y ∷ xs) h hk fresh at free =
    ground (arith, value_of-set old native k j x xs h hk (omega (arith, fresh)) at free)

abbrev pub TakenOut : ℕ → List Slot → ℕ × List Slot → Type 0
TakenOut k xs (dev, ys) =
    (dev ≡ value_of k xs)
    × (length ys ≡ length xs)
    × All IsSlot ys
    × ((j : ℕ) → j ≢ 0 → sum_of (keyed j) ys ≤ sum_of (keyed j) xs)
    × ((n : ℕ) → n ≢ 0 → sum_of (holds n) ys + (if dev == n then 1 else 0) ≡ sum_of (holds n) xs)
    × ((j : ℕ)
        → j ≢ 0
        → sum_of (keyed j) xs ≤ 1
        → value_of j ys ≡ (if k == j then 0 else value_of j xs))

TakenOut-here :
    (k : ℕ) (x : Slot) (xs : List Slot)
    → k ≢ 0
    → x.key ≡ k
    → All IsSlot (x ∷ xs)
    → TakenOut k (x ∷ xs) (x.value, vacant ∷ xs)
unfolding value_of
TakenOut-here k x xs h e v = (
  ground arith,
  refl,
  ((λ z. refl, λ z. refl), v.1),
  λ j hj. ground arith,
  λ n hn. ground arith,
  λ j hj one. ground (arith, value_of-keyed j xs hj v.1),
)

TakenOut-if :
    (b : Bool) (k : ℕ) (x : Slot) (xs : List Slot) (r : ℕ × List Slot)
    → (not (k == 0) && (x.key == k)) ≡ b
    → All IsSlot (x ∷ xs)
    → TakenOut k xs r
    → TakenOut k (x ∷ xs) (if b then (x.value, vacant ∷ xs) else (r.0, x ∷ r.1))
unfolding value_of
TakenOut-if true k x xs r e v t = TakenOut-here k x xs (λ z. ground arith) (ground arith) v
TakenOut-if false k x xs (dev, ys) e v (same, size, slots, keys, held, look) = (
  ground (arith, same),
  omega (arith, size),
  (v.0, slots),
  λ j hj. ground (arith, keys j hj),
  λ n hn. ground (arith, held n hn),
  λ j hj one. ground (arith, look j hj (omega (arith, one))),
)

pub take_out-TakenOut : (k : ℕ) (xs : List Slot) → All IsSlot xs → TakenOut k xs (take_out k xs)
unfolding take_out value_of
take_out-TakenOut k [] v =
    (refl, refl, tt, λ j hj. omega arith, λ n hn. ground arith, λ j hj one. ground arith)
take_out-TakenOut k (x ∷ xs) v =
    TakenOut-if (not (k == 0) && (x.key == k)) k x xs (take_out k xs) refl v
      (take_out-TakenOut k xs v.1)

-- Storing a fresh key in a free slot.
pub set-IsRegistry :
    (old native i : ℕ) (x : Slot) (xs : List Slot)
    → old ≢ 0
    → native ≢ 0
    → IsRegistry xs
    → sum_of (keyed old) xs ≡ 0
    → get_elem? xs i ≡ some x
    → x.key ≡ 0
    → IsRegistry (set xs i (record { key = old; value = native }))
set-IsRegistry old native i x xs h hn v fresh at free =
    let y : Slot = record { key = old; value = native } in
    record {
      sized = length-set xs i y ∙ v.sized;
      paired = All-set IsSlot xs i y v.paired (λ z. absurd (h z), λ z. absurd (hn z));
      distinct = λ k hk. ground (arith, sum_of-set (keyed k) xs i y at, v.distinct k hk, fresh);
    }

pub taken-IsRegistry :
    {xs ys : List Slot}
    → length ys ≡ length xs
    → All IsSlot ys
    → ((k : ℕ) → k ≢ 0 → sum_of (keyed k) ys ≤ 1)
    → IsRegistry xs
    → IsRegistry ys
taken-IsRegistry size slots keys v = record {
  sized = size ∙ v.sized;
  paired = slots;
  distinct = keys;
}
