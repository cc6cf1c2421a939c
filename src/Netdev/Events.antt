-- ===== src/Netdev/Events.antt =====
-- The numbers of netdevice events in the two kernels, for the translation in shim_netdev.c.
use cudy_wr3600_openwrt.Prelude.{Option, arith, none, some, ℕ, ◌≡◌, ◌≢◌}
use cudy_wr3600_openwrt.Netdev.Notify.{translate}

-- The events that both kernels have with a name of their own up to NETDEV_POST_INIT, and
-- NETDEV_PRE_CHANGEADDR, which only the native one has.
pub data Event : Type 0 where
  up down reboot change register_dev unregister_dev changemtu changeaddr pre_changeaddr going_down
        changename feat_change bonding_failover pre_up pre_type_change post_type_change post_init :
      Event

abbrev pub native_number : Event → ℕ
native_number up = 1
native_number down = 2
native_number reboot = 3
native_number change = 4
native_number register_dev = 5
native_number unregister_dev = 6
native_number changemtu = 7
native_number changeaddr = 8
native_number pre_changeaddr = 9
native_number going_down = 10
native_number changename = 11
native_number feat_change = 12
native_number bonding_failover = 13
native_number pre_up = 14
native_number pre_type_change = 15
native_number post_type_change = 16
native_number post_init = 17

abbrev pub vendor_number : Event → Option ℕ
vendor_number up = some 1
vendor_number down = some 2
vendor_number reboot = some 3
vendor_number change = some 4
vendor_number register_dev = some 5
vendor_number unregister_dev = some 6
vendor_number changemtu = some 7
vendor_number changeaddr = some 8
vendor_number pre_changeaddr = none
vendor_number going_down = some 9
vendor_number changename = some 10
vendor_number feat_change = some 11
vendor_number bonding_failover = some 12
vendor_number pre_up = some 13
vendor_number pre_type_change = some 14
vendor_number post_type_change = some 15
vendor_number post_init = some 16

-- Each event is translated from its native number to the vendor's, and is dropped where the vendor has
-- none; no other number is translated.
pub translate-native_number :
    ((e : Event) → translate (native_number e) ≡ vendor_number e)
    × ((n : ℕ) → ((e : Event) → native_number e ≢ n) → translate n ≡ none)
unfolding translate
translate-native_number = (
  λ e. ground arith,
  λ n h. ground (
    arith,
    h up,
    h down,
    h reboot,
    h change,
    h register_dev,
    h unregister_dev,
    h changemtu,
    h changeaddr,
    h going_down,
    h changename,
    h feat_change,
    h bonding_failover,
    h pre_up,
    h pre_type_change,
    h post_type_change,
    h post_init,
  ),
)
