-- ===== src/Netdev/Notify.antt =====
-- The netdevice-notifier trampoline of shim_netdev.c.
use cudy_wr3600_openwrt.Prelude.{
  Bool, Errno, List, Option, [], einval, false, get_elem?, if◌then◌else◌, ltb, none, not, set, some,
  suc, true, update, ℕ, ◌&&◌, ◌+◌, ◌-◌, ◌==◌, ◌||◌, ◌∷◌,
}
use cudy_wr3600_openwrt.Slots.{Slot, vacant, value_of, take_out, slot_key}

-- The address of `shim_notify_trampoline`.
abbrev pub trampoline : ℕ
trampoline = 1

-- The kernel's answers to register_netdevice_notifier and unregister_netdevice_notifier, given the
-- notifiers that are in its chain.
pub record Kernel : Type 0 where
  pub register_answer : ℕ → List ℕ → Option Errno
  pub unregister_answer : ℕ → List ℕ → Option Errno

-- `shim_notify_slots` with its two counters, the `notifier_call` of every notifier block, and the
-- kernel's chain. A slot's key is its `nb` and its value the saved `orig`.
pub record Notify : Type 0 where
  pub slots : List Slot
  pub call : ℕ → ℕ
  pub chain : List ℕ
  pub swapped : ℕ
  pub restored : ℕ

abbrev pub member : ℕ → List ℕ → Bool
member x [] = false
member x (y ∷ ys) = (y == x) || member x ys

abbrev pub without : ℕ → List ℕ → List ℕ
without x [] = []
without x (y ∷ ys) = if y == x then without x ys else y ∷ without x ys

abbrev pub register_native : Kernel → ℕ → Notify → Option Errno × Notify
register_native k nb s =
    let answer = k.register_answer nb s.chain in
    (answer, record s { chain = elim answer [ none ↦ nb ∷ s.chain | some e ↦ s.chain ] })

abbrev pub unregister_native : Kernel → ℕ → Notify → Option Errno × Notify
unregister_native k nb s =
    let answer = k.unregister_answer nb s.chain in
    (answer, record s { chain = elim answer [ none ↦ without nb s.chain | some e ↦ s.chain ] })

-- `shim_notify_translate`
unfoldable pub translate : ℕ → Option ℕ
translate event =
    if not (ltb event 1) && not (ltb 8 event)
    then some event
    else if not (ltb event 10) && not (ltb 17 event)
    then some (event - 1)
    else none

-- `shim_notify_orig`
abbrev pub orig_of : ℕ → Notify → ℕ
orig_of nb s = value_of nb s.slots

-- `shim_notify_trampoline`: the callback that it calls, with the event and the device, or none for
-- NOTIFY_DONE. `legacy` is shim_netdev_legacy.
unfoldable pub deliver : (ℕ → ℕ) → ℕ → ℕ → ℕ → Notify → Option (ℕ × ℕ × ℕ)
deliver legacy nb event dev s =
    let called : Option (ℕ × ℕ × ℕ) = elim (translate event) [
      | none ↦ none
      | some mapped ↦ some (orig_of nb s, mapped, legacy dev)
    ] in
    if (nb == 0) || (dev == 0)
    then none
    else if orig_of nb s == 0
    then none
    else if legacy dev == 0
    then none
    else called

-- The loop that looks for the slot of a notifier, or else for the first that is free, from slot `i` on.
unfoldable pub find_slot : ℕ → ℕ → Option ℕ → List Slot → Option ℕ
find_slot nb i free [] = free
find_slot nb i free (x ∷ xs) =
    let seen : Option ℕ = elim free [
      | some k ↦ some k
      | none ↦ if x.key == 0 then some i else none
    ] in
    let rest = find_slot nb (suc i) seen xs in if x.key == nb then some i else rest

-- Taking slot `i`: the callback is saved if the slot was free, and the trampoline put in its place.
abbrev pub swap_in : ℕ → ℕ → Notify → Notify
swap_in nb i s = record s {
  slots =
      if slot_key (get_elem? s.slots i) == 0
      then set s.slots i (record { key = nb; value = s.call nb })
      else s.slots;
  call = update s.call nb trampoline;
  swapped = s.swapped + 1;
}

abbrev pub slot_value : Option Slot → ℕ
slot_value none = 0
slot_value (some x) = x.value

-- What is undone when the kernel refuses.
abbrev pub drop_slot : ℕ → ℕ → Notify → Notify
drop_slot nb i s =
    if (slot_key (get_elem? s.slots i) == nb) && (s.call nb == trampoline)
    then record s {
      call = update s.call nb (slot_value (get_elem? s.slots i));
      slots = set s.slots i vacant;
    }
    else s

abbrev pub registered : ℕ → ℕ → Option Errno × Notify → Option Errno × Notify
registered nb i (none, s) = (none, s)
registered nb i (some e, s) = (some e, drop_slot nb i s)

abbrev pub register_at : Kernel → ℕ → Option ℕ → Notify → Option Errno × Notify
register_at k nb none s = register_native k nb s
register_at k nb (some i) s = registered nb i (register_native k nb (swap_in nb i s))

-- `bcm_shim_register_netdevice_notifier`
unfoldable pub register : Kernel → ℕ → Notify → Option Errno × Notify
register k nb s =
    if (nb == 0) || (s.call nb == 0)
    then (some einval, s)
    else register_at k nb (find_slot nb 0 none s.slots) s

unfoldable pub has_key : ℕ → List Slot → Bool
has_key nb [] = false
has_key nb (x ∷ xs) = let rest = has_key nb xs in if x.key == nb then true else rest

-- The loop of the unregistration: the saved callback is restored and its slot emptied.
unfoldable pub restore : ℕ → Notify → Notify
restore nb s =
    let out = take_out nb s.slots in
    if has_key nb s.slots
    then record s {
      call = if s.call nb == trampoline then update s.call nb out.0 else s.call;
      slots = out.1;
      restored = s.restored + 1;
    }
    else s

-- `bcm_shim_unregister_netdevice_notifier`
unfoldable pub unregister : Kernel → ℕ → Notify → Option Errno × Notify
unregister k nb s =
    let r = unregister_native k nb s in if nb == 0 then (some einval, s) else (r.0, restore nb r.1)
