-- ===== src/Tests/NetdevRuns.antt =====
-- Two notifiers of the vendor's modules in shim_netdev.c.
use cudy_wr3600_openwrt.Prelude.{
  sum_of, [], ◌==◌, ◌∷◌, if◌then◌else◌, ◌+◌, ◌≡◌, ◌≢◌, ◌⊎◌, arith, eexist, none, refl, some, ℕ,
}
use cudy_wr3600_openwrt.Netdev.Notify.{find_slot, Notify, Kernel, member, register}
use cudy_wr3600_openwrt.Slots.{value_of}
use cudy_wr3600_openwrt.Slots.Laws.{keyed}
use cudy_wr3600_openwrt.Netdev.Lookup.{
  Views, IsViews, native_in, get_by_name_legacy, get_by_name_legacy_lem,
}
use cudy_wr3600_openwrt.Netdev.Notifiers.{IsNotify}
use cudy_wr3600_openwrt.Netdev.Delivery.{
  here, next, registers, Reach, loaded, reachable-IsNotify, Translates, Untranslated,
  register-again,
}

-- A kernel that refuses only a notifier that is already in its chain.
abbrev kernel : Kernel
kernel = record {
  register_answer = λ nb chain. if member nb chain then some eexist else none;
  unregister_answer = λ nb chain. none;
}

abbrev own : ℕ → ℕ
own nb = nb + 1000

abbrev two_notifiers : Notify
two_notifiers = (register kernel 20 (register kernel 10 (loaded own)).1).1

two_notifiers-Reach : Reach kernel own (loaded own) two_notifiers
two_notifiers-Reach = next (next here (registers 10)) (registers 20)

-- The first of them is registered again, which the kernel refuses.
abbrev once_more : Notify
once_more = (register kernel 10 two_notifiers).1

once_more-Reach : Reach kernel own (loaded own) once_more
once_more-Reach = next two_notifiers-Reach (registers 10)

reachable-IsNotify_example :
    IsNotify own once_more
    × ((nb : ℕ)
        → nb ≢ 0
        → (once_more.call nb ≡ own nb) ⊎ Translates own (λ dev. dev + 5) nb once_more)
    × ((nb : ℕ)
        → nb ≢ 0
        → own nb ≢ 0
        → kernel.register_answer nb once_more.chain ≡ none
        → Translates own (λ dev. dev + 5) nb (register kernel nb once_more).1
          ⊎ (sum_of (keyed 0) once_more.slots ≡ 0))
reachable-IsNotify_example = reachable-IsNotify (λ dev. dev + 5) once_more-Reach

two_notifiers-IsNotify : IsNotify own two_notifiers
two_notifiers-IsNotify = (reachable-IsNotify (λ dev. dev + 5) two_notifiers-Reach).0

slotted : value_of 10 two_notifiers.slots ≢ 0
unfolding register find_slot value_of
slotted z = ground (arith, z)

refused : kernel.register_answer 10 two_notifiers.chain ≡ some eexist
unfolding register find_slot
refused = refl

register-again_example :
    ((register kernel 10 two_notifiers).0 ≡ some eexist)
    × Untranslated own 10 (register kernel 10 two_notifiers).1
register-again_example =
    register-again kernel 10 two_notifiers eexist (λ z. ground (arith, z)) slotted refused
      two_notifiers-IsNotify

-- Two views and their devices.
abbrev bridged : Views
bridged = record {
  entries = (record { old = 51; native = 7 }) ∷ (record { old = 52; native = 8 }) ∷ [];
  refs = λ n. 1;
}

bridged-IsViews : IsViews bridged.entries
bridged-IsViews = record { one_view = λ old. ground arith; one_device = λ native. ground arith }

-- The device 8 has a name, and so has the device 9, which has no view.
abbrev device_named : ℕ → ℕ → ℕ
device_named net name = if name == 3 then 8 else if name == 4 then 9 else 0

get_by_name_legacy_lem_example :
    ((get_by_name_legacy device_named 1 3 bridged).0 ≡ 0)
      × ((n : ℕ) → (get_by_name_legacy device_named 1 3 bridged).1.refs n ≡ 1)
    ⊎ ((get_by_name_legacy device_named 1 3 bridged).0 ≢ 0)
      × (native_in
            (get_by_name_legacy device_named 1 3 bridged).0
            (get_by_name_legacy device_named 1 3 bridged).1.entries
          ≡ 8)
      × ((n : ℕ)
          → (get_by_name_legacy device_named 1 3 bridged).1.refs n ≡ 1 + (if 8 == n then 1 else 0))
get_by_name_legacy_lem_example = get_by_name_legacy_lem device_named 1 3 bridged bridged-IsViews
