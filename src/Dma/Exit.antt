-- ===== src/Dma/Exit.antt =====
-- shim_dma_exit of shim_dma.c: every slot is emptied.
use mathlib.Core.Path.{subst}
use cudy_wr3600_openwrt.Prelude.{
  All, Bool, List, [], arith, false, get_elem?, if◌then◌else◌, length, not, refl, suc, sum_of, true,
  zero, ℕ, ◌&&◌, ◌+◌, ◌==◌, ◌∷◌, ◌≡◌, ◌≢◌, ◌≤◌,
}
use cudy_wr3600_openwrt.Dma.{Dma, unbind, unbind_slots, exit, dma419_slots}
use cudy_wr3600_openwrt.Slots.{vacant, Slot, take_out, value_of, slot_key}
use cudy_wr3600_openwrt.Slots.Laws.{holds, IsSlot}
use cudy_wr3600_openwrt.Dma.Registry.{IsDma, unbind-IsDma}

-- The first `i` slots have no key.
abbrev AreEmpty : ℕ → List Slot → Type 0
AreEmpty zero xs = Unit
AreEmpty (suc i) [] = Unit
AreEmpty (suc i) (x ∷ xs) = (x.key ≡ 0) × AreEmpty i xs

AreEmpty-if :
    (b : Bool) (i : ℕ) (x : Slot) (xs ys : List Slot) (dev : ℕ)
    → x.key ≡ 0
    → AreEmpty (suc i) ys
    → b ≡ false
    → AreEmpty
        (suc (suc i))
        (if◌then◌else◌ {A = ℕ × List Slot} b (x.value, vacant ∷ xs) (dev, x ∷ ys)).1
AreEmpty-if true i x xs ys dev z e b = absurd (ground (arith, b))
AreEmpty-if false i x xs ys dev z e b = (z, e)

AreEmpty-take_out :
    (i : ℕ) (xs : List Slot)
    → AreEmpty i xs
    → AreEmpty (suc i) (take_out (slot_key (get_elem? xs i)) xs).1
unfolding take_out
AreEmpty-take_out i [] e = ground arith
AreEmpty-take_out zero (x ∷ xs) e = ground arith
AreEmpty-take_out (suc i) (x ∷ xs) (z, e) =
    let k = slot_key (get_elem? xs i) in
    AreEmpty-if (not (k == 0) && (x.key == k)) i x xs (take_out k xs).1 (take_out k xs).0 z
      (AreEmpty-take_out i xs e) (ground (arith, z))

AreEmpty-unbind :
    (i : ℕ) (d : Dma)
    → AreEmpty i d.slots
    → AreEmpty (suc i) (unbind (slot_key (get_elem? d.slots i)) d).slots
unfolding unbind
AreEmpty-unbind i d e = ground (arith, AreEmpty-take_out i d.slots e)

unbind_slots-IsDma :
    {lent : ℕ → ℕ} (n i : ℕ) (d : Dma)
    → IsDma lent d
    → AreEmpty i d.slots
    → IsDma lent (unbind_slots n i d) × AreEmpty (i + n) (unbind_slots n i d).slots
unfolding unbind_slots
unbind_slots-IsDma zero i d v e =
    let count : i ≡ i + 0 = omega arith in (v, subst (λ j. AreEmpty j d.slots) count e)
unbind_slots-IsDma (suc n) i d v e =
    let k = slot_key (get_elem? d.slots i) in
    let (w, f) =
      unbind_slots-IsDma n (suc i) (unbind k d) (unbind-IsDma k d v) (AreEmpty-unbind i d e) in
    let count : suc i + n ≡ i + suc n = omega arith in
    (w, subst (λ j. AreEmpty j (unbind_slots (suc n) i d).slots) count f)

empty_slots :
    (n : ℕ) (xs : List Slot)
    → length xs ≤ n
    → All IsSlot xs
    → AreEmpty n xs
    → ((k : ℕ) → value_of k xs ≡ 0) × ((dev : ℕ) → dev ≢ 0 → sum_of (holds dev) xs ≡ 0)
unfolding value_of
empty_slots n [] h v e = (λ k. refl, λ dev hd. refl)
empty_slots zero (x ∷ xs) h v e = absurd (omega (arith, h))
empty_slots (suc n) (x ∷ xs) h v e =
    let (look, held) = empty_slots n xs (omega (arith, h)) v.1 e.1 in
    (λ k. ground (arith, look k, e), λ dev hd. ground (arith, held dev hd, v.0.0 e.0))

-- After the exit of a valid registry no key has a device, and the only references left are those that
-- callers of shim_dma_get_device still hold.
pub exit_lem :
    {lent : ℕ → ℕ} (d : Dma)
    → IsDma lent d
    → ((k : ℕ) → value_of k (exit d).slots ≡ 0)
      × ((dev : ℕ) → dev ≢ 0 → (exit d).refs dev ≡ lent dev)
unfolding exit
exit_lem d v =
    let (w, e) = unbind_slots-IsDma dma419_slots 0 d v tt in
    let (look, held) =
      empty_slots dma419_slots (unbind_slots dma419_slots 0 d).slots
        (omega (arith, w.registry.sized)) w.registry.paired e in
    (look, λ dev hd. omega (arith, w.counted dev hd, held dev hd))
