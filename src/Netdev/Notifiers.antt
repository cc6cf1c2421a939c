-- ===== src/Netdev/Notifiers.antt =====
-- The notifiers that the vendor's modules register through shim_netdev.c.
use cudy_wr3600_openwrt.Prelude.{
  All-get_elem?, get_elem?-set, lt_of_get_elem?, update, Errno, Option, get_elem?, set, sum_of, sym,
  ◌∷◌, arith, if◌then◌else◌, none, refl, some, true, ℕ, ◌==◌, ◌∙◌, ◌≡◌, ◌≢◌,
}
use mathlib.Core.Path.{subst}
use cudy_wr3600_openwrt.Slots.{Slot, vacant, value_of}
use cudy_wr3600_openwrt.Slots.Laws.{
  value_of-null, IsSlot, value_of-keyed, keyed, IsRegistry, set-IsRegistry, value_of-set,
}
use cudy_wr3600_openwrt.Slots.Emptied.{set-vacant}
use cudy_wr3600_openwrt.Netdev.Notify.{drop_slot, registered, trampoline, swap_in, Notify, member}

-- `own` is the callback that each notifier was defined with. A notifier in a slot is in the kernel's
-- chain with the trampoline for its callback, which the slot keeps; every other has its own.
pub record IsNotify (own : ℕ → ℕ) (s : Notify) : Type 0 where
  pub registry : IsRegistry s.slots
  pub saved : (nb : ℕ) → value_of nb s.slots ≢ 0 → value_of nb s.slots ≡ own nb
  pub calls :
      (nb : ℕ) → nb ≢ 0 → s.call nb ≡ (if value_of nb s.slots == 0 then own nb else trampoline)
  pub chained : (nb : ℕ) → value_of nb s.slots ≢ 0 → member nb s.chain ≡ true

-- The slots, the callbacks and the chain are what matters.
pub IsNotify-same :
    {own : ℕ → ℕ} {s t : Notify}
    → t.slots ≡ s.slots
    → ((nb : ℕ) → nb ≢ 0 → t.call nb ≡ s.call nb)
    → ((nb : ℕ) → value_of nb s.slots ≢ 0 → member nb s.chain ≡ true → member nb t.chain ≡ true)
    → IsNotify own s
    → IsNotify own t
IsNotify-same slots call chain v = record {
  registry = rw slots v.registry;
  saved = rw slots v.saved;
  calls = λ nb h. rw slots (call nb h ∙ v.calls nb h);
  chained = rw slots (λ nb h. chain nb h (v.chained nb h));
}

pub answered-IsNotify :
    {own : ℕ → ℕ} (nb : ℕ) (s : Notify) (answer : Option Errno)
    → IsNotify own s
    → IsNotify own (record s { chain = elim answer [ none ↦ nb ∷ s.chain | some e ↦ s.chain ] })
answered-IsNotify nb s none v = IsNotify-same refl (λ m h. refl) (λ m h c. ground (arith, c)) v
answered-IsNotify nb s (some e) v = IsNotify-same refl (λ m h. refl) (λ m h c. c) v

-- A free slot is taken for a notifier that has none.
pub swap_in-slots :
    (nb i : ℕ) (s : Notify) (x : Slot)
    → get_elem? s.slots i ≡ some x
    → x.key ≡ 0
    → (swap_in nb i s).slots ≡ set s.slots i (record { key = nb; value = s.call nb })
swap_in-slots nb i s x at free = rw at (ground (arith, free))

taken-IsNotify :
    {own : ℕ → ℕ} (nb i : ℕ) (s : Notify) (x : Slot)
    → nb ≢ 0
    → own nb ≢ 0
    → get_elem? s.slots i ≡ some x
    → x.key ≡ 0
    → sum_of (keyed nb) s.slots ≡ 0
    → IsNotify own s
    → IsNotify own (record (swap_in nb i s) { chain = nb ∷ s.chain })
taken-IsNotify {own} nb i s x h ho at free fresh v =
    let none_yet : value_of nb s.slots ≡ 0 =
      (value_of-keyed nb s.slots h v.registry.paired).1 fresh in
    let mine : s.call nb ≡ own nb = ground (arith, v.calls nb h, none_yet) in
    let y : Slot = record { key = nb; value = s.call nb } in
    let look : (m : ℕ)
        → m ≢ 0
        → value_of m (set s.slots i y) ≡ (if nb == m then s.call nb else value_of m s.slots) =
      λ m hm. value_of-set nb (s.call nb) m i x s.slots h hm fresh at free in
    let slots = swap_in-slots nb i s x at free in
    let keyed_value : (m : ℕ) → value_of m (set s.slots i y) ≢ 0 → m ≢ 0 =
      λ m hm z. hm (rw z (value_of-null (set s.slots i y))) in
    record {
      registry = rw slots (
          set-IsRegistry nb (s.call nb) i x s.slots h (λ z. ho (sym mine ∙ z)) v.registry fresh at
            free);
      saved = rw slots (λ m hm. ground (arith, look m (keyed_value m hm), v.saved m, mine, hm));
      calls = rw slots (λ m hm. ground (arith, look m hm, v.calls m hm, mine, ho));
      chained = rw slots (λ m hm. ground (arith, look m (keyed_value m hm), v.chained m, hm));
    }

-- A slot of the notifier is dropped, with the trampoline.
pub drop_slot-emptied :
    (nb i : ℕ) (s : Notify) (x : Slot)
    → get_elem? s.slots i ≡ some x
    → x.key ≡ nb
    → s.call nb ≡ trampoline
    → drop_slot nb i s ≡ record s { call = update s.call nb x.value; slots = set s.slots i vacant }
drop_slot-emptied nb i s x at mine call = rw at (ground (arith, mine, call))

-- A slot that was just taken is given back when the kernel refuses.
dropped-IsNotify :
    {own : ℕ → ℕ} (nb i : ℕ) (s : Notify) (x : Slot)
    → get_elem? s.slots i ≡ some x
    → x.key ≡ 0
    → IsNotify own s
    → IsNotify own (drop_slot nb i (swap_in nb i s))
dropped-IsNotify {own} nb i s x at free v =
    let y : Slot = record { key = nb; value = s.call nb } in
    let slots = swap_in-slots nb i s x at free in
    let empty : x.value ≡ 0 = (All-get_elem? IsSlot s.slots i v.registry.paired at).0 free in
    let is : x ≡ vacant = λ k. record { key = free k; value = empty k } in
    let there : get_elem? (swap_in nb i s).slots i ≡ some y =
      rw slots (ground (arith, get_elem?-set s.slots i i y (lt_of_get_elem? s.slots i at))) in
    let back : set (swap_in nb i s).slots i vacant ≡ s.slots =
      rw slots (set-vacant i x y s.slots at is) in
    let dropped = drop_slot-emptied nb i (swap_in nb i s) y there refl (ground arith) in
    subst (IsNotify own) (sym dropped) (IsNotify-same back (λ m h. ground arith) (λ m h c. c) v)

pub registered-IsNotify :
    {own : ℕ → ℕ} (nb i : ℕ) (s : Notify) (x : Slot) (answer : Option Errno)
    → nb ≢ 0
    → own nb ≢ 0
    → get_elem? s.slots i ≡ some x
    → x.key ≡ 0
    → sum_of (keyed nb) s.slots ≡ 0
    → IsNotify own s
    → IsNotify own
        (registered nb i (
          answer,
          record (swap_in nb i s) {
            chain = elim answer [ none ↦ nb ∷ s.chain | some e ↦ s.chain ];
          },
        )).1
registered-IsNotify nb i s x none h ho at free fresh v =
    taken-IsNotify nb i s x h ho at free fresh v
registered-IsNotify nb i s x (some e) h ho at free fresh v = dropped-IsNotify nb i s x at free v
