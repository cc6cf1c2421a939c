-- ===== src/Netdev/Delivery.antt =====
-- Any sequence of registrations through shim_netdev.c, and what the trampoline delivers then.
use cudy_wr3600_openwrt.Prelude.{
  sum_of, get_elem?, set, sym, update, Bool-cases, Errno, Option, [], arith, false, inl, inr, none,
  refl, some, true, ℕ, ◌==◌, ◌||◌, ◌∷◌, ◌≡◌, ◌≢◌, ◌⊎◌,
}
use mathlib.Core.Path.{subst}
use cudy_wr3600_openwrt.Slots.{Slot, vacant, value_of}
use cudy_wr3600_openwrt.Slots.Laws.{value_of-set, keyed, IsSlot, value_of-keyed}
use cudy_wr3600_openwrt.Slots.Emptied.{value_of-emptied, value_of-at}
use cudy_wr3600_openwrt.Netdev.Notify.{
  drop_slot, find_slot, Notify, Kernel, member, translate, deliver, register, unregister,
  register_at, swap_in, trampoline,
}
use cudy_wr3600_openwrt.Netdev.Places.{Placed, find_slot-Placed, found_slot}
use cudy_wr3600_openwrt.Netdev.Notifiers.{IsNotify, swap_in-slots, drop_slot-emptied}
use cudy_wr3600_openwrt.Netdev.Again.{register-IsNotify, slotted_at, swap_in-again}
use cudy_wr3600_openwrt.Netdev.Leaving.{unregister-IsNotify}

-- A call into the shim, for any notifier at any time.
pub data Step (k : Kernel) (own : ℕ → ℕ) (s : Notify) : Notify → Type 0 where
  registers : (nb : ℕ) → Step k own s (register k nb s).1
  unregisters : (nb : ℕ) → Step k own s (unregister k nb s).1

pub data Reach (k : Kernel) (own : ℕ → ℕ) (s : Notify) : Notify → Type 0 where
  here : Reach k own s s
  next : {t u : Notify} → Reach k own s t → Step k own t u → Reach k own s u

Step-IsNotify :
    {k : Kernel} {own : ℕ → ℕ} {s t : Notify} → Step k own s t → IsNotify own s → IsNotify own t
Step-IsNotify {k} {s = s} (registers nb) v = register-IsNotify k nb s v
Step-IsNotify {k} {s = s} (unregisters nb) v = unregister-IsNotify k nb s v

Reach-IsNotify :
    {k : Kernel} {own : ℕ → ℕ} {s t : Notify} → Reach k own s t → IsNotify own s → IsNotify own t
Reach-IsNotify here v = v
Reach-IsNotify (next r st) v = Step-IsNotify st (Reach-IsNotify r v)

-- The state when the module is loaded.
abbrev pub loaded : (ℕ → ℕ) → Notify
loaded own = record {
  slots = vacant ∷ vacant ∷ vacant ∷ vacant ∷ vacant ∷ vacant ∷ vacant ∷ vacant ∷ [];
  call = own;
  chain = [];
  swapped = 0;
  restored = 0;
}

loaded-IsNotify : (own : ℕ → ℕ) → IsNotify own (loaded own)
unfolding value_of
loaded-IsNotify own =
    let e : IsSlot vacant = (λ z. refl, λ z. refl) in
    record {
      registry = record {
        sized = refl;
        paired = (e, (e, (e, (e, (e, (e, (e, (e, tt))))))));
        distinct = λ k hk. ground (arith, hk);
      };
      saved = λ nb h. ground (arith, h);
      calls = λ nb h. ground (arith, h);
      chained = λ nb h. ground (arith, h);
    }

-- The callback of the notifier is the trampoline, which calls the notifier's own with the vendor's
-- event and the vendor's view of the device.
abbrev pub Translates : (ℕ → ℕ) → (ℕ → ℕ) → ℕ → Notify → Type 0
Translates own legacy nb s =
    (s.call nb ≡ trampoline)
    × ((event dev : ℕ)
        → dev ≢ 0
        → legacy dev ≢ 0
        → deliver legacy nb event dev s ≡ (elim (translate event) [
          | none ↦ none
          | some mapped ↦ some (own nb, mapped, legacy dev)
        ]))

Translates-slotted :
    {own : ℕ → ℕ} (legacy : ℕ → ℕ) (nb : ℕ) (s : Notify)
    → nb ≢ 0
    → value_of nb s.slots ≢ 0
    → IsNotify own s
    → Translates own legacy nb s
unfolding deliver
Translates-slotted {own} legacy nb s h slotted v = (
  ground (arith, v.calls nb h, slotted),
  λ event dev hd hl. ground (arith, v.saved nb slotted, h, slotted, hd, hl),
)

-- What an accepted registration leaves: the notifier in a slot, or no slot was free.
slotted_by_register :
    {own : ℕ → ℕ} (k : Kernel) (nb : ℕ) (s : Notify) (r : Option ℕ)
    → nb ≢ 0
    → s.call nb ≢ 0
    → k.register_answer nb s.chain ≡ none
    → IsNotify own s
    → Placed nb 0 none s.slots r
    → (value_of nb (register_at k nb r s).1.slots ≢ 0) ⊎ (sum_of (keyed 0) s.slots ≡ 0)
slotted_by_register k nb s none h callable answer v p = inr p.2
slotted_by_register k nb s (some i) h callable answer v p =
    let (x, at, why) = found_slot nb i s.slots p in
    let kept : value_of nb (swap_in nb i s).slots ≢ 0 = elim why [
      | inl mine ↦ rw (swap_in-again nb i s x h at mine) (slotted_at nb i s x h at mine v.registry)
      | inr (free, fresh) ↦
          let stored = value_of-set nb (s.call nb) nb i x s.slots h h fresh at free in
          rw (swap_in-slots nb i s x at free) (λ z. callable (ground (arith, stored, z)))
    ] in
    rw answer (inl kept)

-- A registration that the kernel accepts is translated, where a slot is free.
Translates-register :
    {own : ℕ → ℕ} (k : Kernel) (legacy : ℕ → ℕ) (nb : ℕ) (s : Notify)
    → nb ≢ 0
    → own nb ≢ 0
    → k.register_answer nb s.chain ≡ none
    → IsNotify own s
    → Translates own legacy nb (register k nb s).1 ⊎ (sum_of (keyed 0) s.slots ≡ 0)
unfolding register
Translates-register {own} k legacy nb s h ho answer v =
    let callable : s.call nb ≢ 0 = λ z. ground (arith, v.calls nb h, ho, z) in
    let called : ((nb == 0) || (s.call nb == 0)) ≡ false = ground (arith, h, callable) in
    let w = register-IsNotify k nb s v in
    let slots =
      slotted_by_register k nb s (find_slot nb 0 none s.slots) h callable answer v
        (find_slot-Placed nb 0 none s.slots) in
    elim slots [
      | inr full ↦ inr full
      | inl slotted ↦
          let there : value_of nb (register k nb s).1.slots ≢ 0 = rw called slotted in
          inl (Translates-slotted legacy nb (register k nb s).1 h there w)
    ]

-- Whatever is registered, again or for the first time, and unregistered after the load of the module,
-- and whatever the kernel answers: the notifiers in slots are distinct and in the chain, and every
-- notifier has either its own callback, or the trampoline, which calls its own with the translated
-- event for a device that has a view. The next registration that the kernel accepts, of a notifier with
-- a callback, leaves it with the trampoline, unless no slot is free.
pub reachable-IsNotify :
    {k : Kernel} {own : ℕ → ℕ} {s : Notify} (legacy : ℕ → ℕ)
    → Reach k own (loaded own) s
    → IsNotify own s
      × ((nb : ℕ) → nb ≢ 0 → (s.call nb ≡ own nb) ⊎ Translates own legacy nb s)
      × ((nb : ℕ)
          → nb ≢ 0
          → own nb ≢ 0
          → k.register_answer nb s.chain ≡ none
          → Translates own legacy nb (register k nb s).1 ⊎ (sum_of (keyed 0) s.slots ≡ 0))
reachable-IsNotify {k} {own} {s} legacy r =
    let v = Reach-IsNotify r (loaded-IsNotify own) in
    (
      v,
      λ nb h. elim (Bool-cases (value_of nb s.slots == 0)) [
        | inl e ↦ inl (ground (arith, v.calls nb h, e))
        | inr e ↦ inr (Translates-slotted legacy nb s h (λ z. ground (arith, e, z)) v)
      ],
      λ nb h ho answer. Translates-register k legacy nb s h ho answer v,
    )

-- A notifier that lost its slot but is still in the chain with its own callback.
abbrev pub Untranslated : (ℕ → ℕ) → ℕ → Notify → Type 0
Untranslated own nb s =
    (member nb s.chain ≡ true) × (value_of nb s.slots ≡ 0) × (s.call nb ≡ own nb)

Untranslated-dropped :
    {own : ℕ → ℕ} (nb i : ℕ) (s : Notify) (x : Slot)
    → nb ≢ 0
    → value_of nb s.slots ≢ 0
    → get_elem? s.slots i ≡ some x
    → x.key ≡ nb
    → IsNotify own s
    → Untranslated own nb (drop_slot nb i (swap_in nb i s))
Untranslated-dropped {own} nb i s x h slotted at mine v =
    let t : Notify = swap_in nb i s in
    let slots : t.slots ≡ s.slots = rw at (ground (arith, mine, h)) in
    let there : get_elem? t.slots i ≡ some x = rw slots at in
    let dropped = drop_slot-emptied nb i t x there mine (ground arith) in
    let gone : value_of nb (set t.slots i vacant) ≡ 0 =
      rw slots (value_of-emptied nb i x s.slots h v.registry at mine) in
    let value = value_of-at nb i x s.slots h (v.registry.distinct nb h) at mine in
    let own_again : update t.call nb x.value nb ≡ own nb =
      ground (arith, value, v.saved nb slotted) in
    subst (Untranslated own nb) (sym dropped) (v.chained nb slotted, gone, own_again)

Untranslated-Placed :
    {own : ℕ → ℕ} (k : Kernel) (nb : ℕ) (s : Notify) (e : Errno) (r : Option ℕ)
    → nb ≢ 0
    → value_of nb s.slots ≢ 0
    → k.register_answer nb s.chain ≡ some e
    → IsNotify own s
    → Placed nb 0 none s.slots r
    → ((register_at k nb r s).0 ≡ some e) × Untranslated own nb (register_at k nb r s).1
Untranslated-Placed k nb s e none h slotted answer v p =
    absurd (slotted ((value_of-keyed nb s.slots h v.registry.paired).1 p.0))
Untranslated-Placed {own} k nb s e (some i) h slotted answer v p =
    let (x, at, why) = found_slot nb i s.slots p in
    elim why [
      | inl mine ↦ rw answer (refl, Untranslated-dropped nb i s x h slotted at mine v)
      | inr (free, fresh) ↦
          absurd (slotted ((value_of-keyed nb s.slots h v.registry.paired).1 fresh))
    ]

-- A notifier that is registered again while it is in a slot, and that the kernel refuses as it must,
-- loses the slot of its first registration: it stays in the chain with its own, untranslated callback.
pub register-again :
    {own : ℕ → ℕ} (k : Kernel) (nb : ℕ) (s : Notify) (e : Errno)
    → nb ≢ 0
    → value_of nb s.slots ≢ 0
    → k.register_answer nb s.chain ≡ some e
    → IsNotify own s
    → ((register k nb s).0 ≡ some e) × Untranslated own nb (register k nb s).1
unfolding register
register-again {own} k nb s e h slotted answer v =
    let called : ((nb == 0) || (s.call nb == 0)) ≡ false =
      ground (arith, h, slotted, v.calls nb h) in
    rw called (
      Untranslated-Placed k nb s e (find_slot nb 0 none s.slots) h slotted answer v
        (find_slot-Placed nb 0 none s.slots))
