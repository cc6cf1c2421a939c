-- ===== src/Netdev/FlagTables.antt =====
-- The tables of bsp-6.6/compat/shim_netdev_flags.h that shim_netdev.c translates device flags with.
use cudy_wr3600_openwrt.Prelude.{List, [], ℕ, ◌∷◌}
use cudy_wr3600_openwrt.Netdev.Flags.{Pair}

abbrev pair : ℕ → ℕ → Pair
pair old native = record { old = old; native = native }

-- `nd419_feature_flags`
abbrev pub feature_flags : List Pair
feature_flags =
    pair 0x400000000 0x800000000
    ∷ pair 0x1000000000 0x2000000000
    ∷ pair 0x40 0x40
    ∷ pair 0x200000 0x200000
    ∷ pair 0x4000 0x4000
    ∷ pair 0x40000000000000 0x80000000000000
    ∷ pair 0x800 0x800
    ∷ pair 0x80000000 0x80000000
    ∷ pair 0x400000 0x400000
    ∷ pair 0x800000 0x800000
    ∷ pair 0x1000000 0x1000000
    ∷ pair 0x2000000 0x2000000
    ∷ pair 0x10000000 0x10000000
    ∷ pair 0x20000 0x20000
    ∷ pair 0x40000000 0x40000000
    ∷ pair 0x20000000 0x20000000
    ∷ pair 0x100000000 0x100000000
    ∷ pair 0x200000000 0x200000000
    ∷ pair 0x4000000 0x4000000
    ∷ pair 0x8000000 0x8000000
    ∷ pair 0x20 0x20
    ∷ pair 0x8 0x8
    ∷ pair 0x2000000000000 0x4000000000000
    ∷ pair 0x4000000000000 0x8000000000000
    ∷ pair 0x800000000000 0x1000000000000
    ∷ pair 0x100000000000000 0x400000000000000
    ∷ pair 0x1000000000000 0x2000000000000
    ∷ pair 0x80000000000000 0x100000000000000
    ∷ pair 0x20000000000000 0x40000000000000
    ∷ pair 0x10000000000000 0x20000000000000
    ∷ pair 0x200 0x200
    ∷ pair 0x100 0x100
    ∷ pair 0x80 0x80
    ∷ pair 0x400000000000 0x800000000000
    ∷ pair 0x200000000000 0x400000000000
    ∷ pair 0x100000000000 0x200000000000
    ∷ pair 0x10 0x10
    ∷ pair 0x2 0x2
    ∷ pair 0x1000 0x1000
    ∷ pair 0x20000000000 0x40000000000
    ∷ pair 0x8000 0x8000
    ∷ pair 0x2000 0x2000
    ∷ pair 0x10000000000 0x20000000000
    ∷ pair 0x2000000000 0x4000000000
    ∷ pair 0x80000000000 0x100000000000
    ∷ pair 0x8000000000 0x10000000000
    ∷ pair 0x40000000000 0x80000000000
    ∷ pair 0x4000000000 0x8000000000
    ∷ pair 0x8000000000000 0x10000000000000
    ∷ pair 0x800000000 0x1000000000
    ∷ pair 0x1 0x1
    ∷ pair 0x100000 0x100000
    ∷ pair 0x10000 0x10000
    ∷ pair 0x40000 0x40000
    ∷ pair 0x80000 0x80000
    ∷ pair 0x400 0x400
    ∷ []

-- `nd419_priv_flags`
abbrev pub priv_flags : List Pair
priv_flags =
    pair 0x1 0x1
    ∷ pair 0x4 0x4
    ∷ pair 0x200 0x200
    ∷ pair 0x80 0x80
    ∷ pair 0x40 0x40
    ∷ pair 0x2 0x2
    ∷ pair 0x8000000 0x8000000
    ∷ pair 0x10000000 0x10000000
    ∷ pair 0x8 0x8
    ∷ pair 0x40000 0x40000
    ∷ pair 0x20000000 0x20000000
    ∷ pair 0x200000 0x200000
    ∷ pair 0x8000 0x8000
    ∷ pair 0x2000000 0x2000000
    ∷ pair 0x10000 0x10000
    ∷ pair 0x100 0x100
    ∷ pair 0x80000 0x80000
    ∷ pair 0x4000000 0x4000000
    ∷ pair 0x100000 0x100000
    ∷ pair 0x400 0x400
    ∷ pair 0x1000000 0x1000000
    ∷ pair 0x800000 0x800000
    ∷ pair 0x4000 0x4000
    ∷ pair 0x400000 0x400000
    ∷ pair 0x2000 0x2000
    ∷ pair 0x800 0x800
    ∷ pair 0x1000 0x1000
    ∷ pair 0x10 0x10
    ∷ pair 0x20 0x20
    ∷ pair 0x20000 0x20000
    ∷ []
