-- ===== src/Tests/RegistryRuns.antt =====
-- The hook registry and the dying-gasp table of wl_compat.c with a handful of entries.
use cudy_wr3600_openwrt.Prelude.{List, [], arith, codes, false, some, true, ◌∷◌, ◌≡◌}
use cudy_wr3600_openwrt.DyingGasp.{Handler, register, deregister}
use cudy_wr3600_openwrt.DyingGasp.Names.{deregister_long}

abbrev two_slots : List Handler
two_slots =
    record { name = codes "wl0"; cbfn = 5; ctx = 1; used = true }
    ∷ record { name = []; cbfn = 0; ctx = 0; used = false }
    ∷ []

deregister_long_example :
    deregister
      (some (codes "wireless_interface"))
      (register (some (codes "wireless_interface")) 6 2 two_slots).1
    ≡ (register (some (codes "wireless_interface")) 6 2 two_slots).1
deregister_long_example =
    deregister_long (codes "wireless_interface") 6 2 two_slots (omega arith)
      (omega arith, (omega arith, tt))
