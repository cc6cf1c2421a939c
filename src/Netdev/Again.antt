-- ===== src/Netdev/Again.antt =====
-- The registration of a notifier in shim_netdev.c, for the first time or again.
use cudy_wr3600_openwrt.Prelude.{
  update, Bool-cases, inl, inr, ◌||◌, Errno, Option, get_elem?, set, sym, ◌∷◌, arith, if◌then◌else◌,
  none, some, ℕ, ◌==◌, ◌≡◌, ◌≢◌,
}
use mathlib.Core.Path.{subst}
use cudy_wr3600_openwrt.Slots.{Slot, vacant, value_of}
use cudy_wr3600_openwrt.Slots.Laws.{value_of-null, value_of-keyed, IsRegistry}
use cudy_wr3600_openwrt.Slots.Emptied.{value_of-at, value_of-vacated, vacated-IsRegistry, keyed-at}
use cudy_wr3600_openwrt.Netdev.Notify.{
  drop_slot, register_at, registered, find_slot, swap_in, Notify, Kernel, register,
}
use cudy_wr3600_openwrt.Netdev.Places.{Placed, find_slot-Placed, found_slot}
use cudy_wr3600_openwrt.Netdev.Notifiers.{
  IsNotify, IsNotify-same, answered-IsNotify, registered-IsNotify, drop_slot-emptied,
}

-- A notifier that has a slot.
pub slotted_at :
    (nb i : ℕ) (s : Notify) (x : Slot)
    → nb ≢ 0
    → get_elem? s.slots i ≡ some x
    → x.key ≡ nb
    → IsRegistry s.slots
    → value_of nb s.slots ≢ 0
slotted_at nb i s x h at mine v z =
    omega (arith, keyed-at nb i x s.slots at mine h, (value_of-keyed nb s.slots h v.paired).0 z)

pub swap_in-again :
    (nb i : ℕ) (s : Notify) (x : Slot)
    → nb ≢ 0
    → get_elem? s.slots i ≡ some x
    → x.key ≡ nb
    → (swap_in nb i s).slots ≡ s.slots
swap_in-again nb i s x h at mine = rw at (ground (arith, mine, h))

-- A notifier that is registered again and refused is without a slot.
lost-IsNotify :
    {own : ℕ → ℕ} (nb i : ℕ) (s : Notify) (x : Slot)
    → nb ≢ 0
    → get_elem? s.slots i ≡ some x
    → x.key ≡ nb
    → IsNotify own s
    → IsNotify own (drop_slot nb i (swap_in nb i s))
lost-IsNotify {own} nb i s x h at mine v =
    let t : Notify = swap_in nb i s in
    let slots = swap_in-again nb i s x h at mine in
    let there : get_elem? t.slots i ≡ some x = rw slots at in
    let dropped = drop_slot-emptied nb i t x there mine (ground arith) in
    let value = value_of-at nb i x s.slots h (v.registry.distinct nb h) at mine in
    let kept = v.saved nb (slotted_at nb i s x h at mine v.registry) in
    let looks : (m : ℕ)
        → m ≢ 0
        → value_of m (set s.slots i vacant) ≡ (if nb == m then 0 else value_of m s.slots) =
      λ m hm. value_of-vacated nb m i x s.slots h hm v.registry at mine in
    let keyed_value : (m : ℕ) → value_of m (set s.slots i vacant) ≢ 0 → m ≢ 0 =
      λ m hm z. hm (rw z (value_of-null (set s.slots i vacant))) in
    let emptied : IsNotify own
        (record t { call = update t.call nb x.value; slots = set s.slots i vacant }) =
      record {
        registry = vacated-IsRegistry i x s.slots v.registry at;
        saved = λ m hm. ground (arith, looks m (keyed_value m hm), v.saved m, hm);
        calls = λ m hm. ground (arith, looks m hm, v.calls m hm, value, kept);
        chained = λ m hm. ground (arith, looks m (keyed_value m hm), v.chained m, hm);
      } in
    subst (IsNotify own) (sym dropped) (rw slots emptied)

again-IsNotify :
    {own : ℕ → ℕ} (nb i : ℕ) (s : Notify) (x : Slot) (answer : Option Errno)
    → nb ≢ 0
    → get_elem? s.slots i ≡ some x
    → x.key ≡ nb
    → IsNotify own s
    → IsNotify own
        (registered nb i (
          answer,
          record (swap_in nb i s) {
            chain = elim answer [ none ↦ nb ∷ s.chain | some e ↦ s.chain ];
          },
        )).1
again-IsNotify nb i s x none h at mine v =
    let called = v.calls nb h in
    let slotted = slotted_at nb i s x h at mine v.registry in
    IsNotify-same (swap_in-again nb i s x h at mine) (λ m hm. ground (arith, called, slotted))
      (λ m hm c. ground (arith, c)) v
again-IsNotify nb i s x (some e) h at mine v = lost-IsNotify nb i s x h at mine v

Placed-IsNotify :
    {own : ℕ → ℕ} (k : Kernel) (nb : ℕ) (s : Notify) (r : Option ℕ)
    → nb ≢ 0
    → s.call nb ≢ 0
    → Placed nb 0 none s.slots r
    → IsNotify own s
    → IsNotify own (register_at k nb r s).1
Placed-IsNotify k nb s none h callable p v = answered-IsNotify nb s (k.register_answer nb s.chain) v
Placed-IsNotify {own} k nb s (some i) h callable p v =
    let (x, at, why) = found_slot nb i s.slots p in
    let answer = k.register_answer nb s.chain in
    elim why [
      | inl mine ↦ again-IsNotify nb i s x answer h at mine v
      | inr (free, fresh) ↦
          let none_yet = (value_of-keyed nb s.slots h v.registry.paired).1 fresh in
          let ho : own nb ≢ 0 = λ z. callable (ground (arith, v.calls nb h, none_yet, z)) in
          registered-IsNotify nb i s x answer h ho at free fresh v
    ]

pub register-IsNotify :
    {own : ℕ → ℕ} (k : Kernel) (nb : ℕ) (s : Notify)
    → IsNotify own s
    → IsNotify own (register k nb s).1
unfolding register
register-IsNotify {own} k nb s v = elim (Bool-cases ((nb == 0) || (s.call nb == 0))) [
  | inl e ↦ rw e v
  | inr e ↦ rw e (
      Placed-IsNotify k nb s (find_slot nb 0 none s.slots) (λ z. ground (arith, e, z))
        (λ z. ground (arith, e, z)) (find_slot-Placed nb 0 none s.slots) v)
]
