-- ===== src/Netdev/Leaving.antt =====
-- The unregistration of notifiers in shim_netdev.c.
use cudy_wr3600_openwrt.Prelude.{
  Bool-cases, Errno, List, Option, [], arith, if◌then◌else◌, inl, inr, none, some, sum_of, true,
  update, ℕ, ◌+◌, ◌==◌, ◌∷◌, ◌≡◌, ◌≢◌,
}
use mathlib.Core.Path.{subst}
use cudy_wr3600_openwrt.Slots.{Slot, value_of, take_out}
use cudy_wr3600_openwrt.Slots.Laws.{
  value_of-null, value_of-keyed, keyed, TakenOut, take_out-TakenOut, taken-IsRegistry,
}
use cudy_wr3600_openwrt.Netdev.Notify.{
  Notify, Kernel, member, without, unregister, restore, trampoline,
}
use cudy_wr3600_openwrt.Netdev.Places.{has_key-keyed}
use cudy_wr3600_openwrt.Netdev.Notifiers.{IsNotify}

member-without :
    (m nb : ℕ) (xs : List ℕ) → nb ≢ m → member m xs ≡ true → member m (without nb xs) ≡ true
member-without m nb [] h e = e
member-without m nb (x ∷ xs) h e = ground (arith, member-without m nb xs h, e, h)

-- Every other notifier is still in the chain.
abbrev Others : ℕ → List ℕ → List ℕ → Type 0
Others nb before after = (m : ℕ) → nb ≢ m → member m before ≡ true → member m after ≡ true

restored-IsNotify :
    {own : ℕ → ℕ} (nb : ℕ) (s : Notify) (chain : List ℕ) (r : ℕ × List Slot)
    → nb ≢ 0
    → value_of nb s.slots ≢ 0
    → TakenOut nb s.slots r
    → Others nb s.chain chain
    → IsNotify own s
    → IsNotify own (record s {
      slots = r.1;
      call = if s.call nb == trampoline then update s.call nb r.0 else s.call;
      chain = chain;
      restored = s.restored + 1;
    })
restored-IsNotify {own} nb s chain (dev, ys) h slotted (same, size, slots, keys, held, look) others
      v =
    let looks : (m : ℕ) → m ≢ 0 → value_of m ys ≡ (if nb == m then 0 else value_of m s.slots) =
      λ m hm. look m hm (v.registry.distinct m hm) in
    let keyed_value : (m : ℕ) → value_of m ys ≢ 0 → m ≢ 0 =
      λ m hm z. hm (rw z (value_of-null ys)) in
    record {
      registry =
          taken-IsRegistry size slots (λ k hk. omega (arith, keys k hk, v.registry.distinct k hk))
            v.registry;
      saved = λ m hm. ground (arith, looks m (keyed_value m hm), v.saved m, hm);
      calls = λ m hm.
          ground (arith, looks m hm, v.calls m hm, v.calls nb h, v.saved nb slotted, same, slotted);
      chained = λ m hm. ground (arith, looks m (keyed_value m hm), v.chained m, others m, hm);
    }

left-IsNotify :
    {own : ℕ → ℕ} (nb : ℕ) (s : Notify) (chain : List ℕ)
    → nb ≢ 0
    → Others nb s.chain chain
    → IsNotify own s
    → IsNotify own (restore nb (record s { chain = chain }))
unfolding restore
left-IsNotify {own} nb s chain h others v =
    let size = value_of-keyed nb s.slots h v.registry.paired in
    elim (Bool-cases (sum_of (keyed nb) s.slots == 0)) [
      | inl e ↦
          let none_yet : value_of nb s.slots ≡ 0 = size.1 (ground (arith, e)) in
          let chained : (m : ℕ) → value_of m s.slots ≢ 0 → member m chain ≡ true = λ m hm.
            others m (λ z. hm (subst (λ k. value_of k s.slots ≡ 0) z none_yet)) (v.chained m hm) in
          let w : IsNotify own (record s { chain = chain }) = record {
            registry = v.registry;
            saved = v.saved;
            calls = v.calls;
            chained = chained;
          } in
          rw (has_key-keyed nb s.slots, e) w
      | inr e ↦
          let slotted : value_of nb s.slots ≢ 0 = λ z. ground (arith, size.0 z, e) in
          rw (has_key-keyed nb s.slots, e)
            (restored-IsNotify nb s chain (take_out nb s.slots) h slotted
              (take_out-TakenOut nb s.slots v.registry.paired) others v)
    ]

answer-Others :
    (nb : ℕ) (chain : List ℕ) (answer : Option Errno)
    → Others nb chain (elim answer [ none ↦ without nb chain | some e ↦ chain ])
answer-Others nb chain none m h e = member-without m nb chain h e
answer-Others nb chain (some f) m h e = e

pub unregister-IsNotify :
    {own : ℕ → ℕ} (k : Kernel) (nb : ℕ) (s : Notify)
    → IsNotify own s
    → IsNotify own (unregister k nb s).1
unfolding unregister
unregister-IsNotify {own} k nb s v = elim (Bool-cases (nb == 0)) [
  | inl e ↦ rw e v
  | inr e ↦ rw e (
      left-IsNotify nb s _ (λ z. ground (arith, e, z))
        (answer-Others nb s.chain (k.unregister_answer nb s.chain)) v)
]
