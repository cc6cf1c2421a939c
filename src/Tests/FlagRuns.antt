-- ===== src/Tests/FlagRuns.antt =====
-- The tables of flags of shim_netdev_flags.h, as numbers of bits.
use cudy_wr3600_openwrt.Prelude.{List, [], if◌then◌else◌, none, refl, ℕ, ◌∷◌, ◌≡◌}
use cudy_wr3600_openwrt.Prelude.Masks.{bit_at}
use cudy_wr3600_openwrt.Netdev.Flags.{flags_to_native, flags_to_old}
use cudy_wr3600_openwrt.Netdev.FlagTables.{feature_flags}
use cudy_wr3600_openwrt.Netdev.FlagBits.{Place, listed, flags_to_native-flags_to_old}

abbrev place : ℕ → ℕ → Place
place old native = record { old_bit = old; native_bit = native }

abbrev feature_places : List Place
feature_places =
    place 34 35
    ∷ place 36 37
    ∷ place 6 6
    ∷ place 21 21
    ∷ place 14 14
    ∷ place 54 55
    ∷ place 11 11
    ∷ place 31 31
    ∷ place 22 22
    ∷ place 23 23
    ∷ place 24 24
    ∷ place 25 25
    ∷ place 28 28
    ∷ place 17 17
    ∷ place 30 30
    ∷ place 29 29
    ∷ place 32 32
    ∷ place 33 33
    ∷ place 26 26
    ∷ place 27 27
    ∷ place 5 5
    ∷ place 3 3
    ∷ place 49 50
    ∷ place 50 51
    ∷ place 47 48
    ∷ place 56 58
    ∷ place 48 49
    ∷ place 55 56
    ∷ place 53 54
    ∷ place 52 53
    ∷ place 9 9
    ∷ place 8 8
    ∷ place 7 7
    ∷ place 46 47
    ∷ place 45 46
    ∷ place 44 45
    ∷ place 4 4
    ∷ place 1 1
    ∷ place 12 12
    ∷ place 41 42
    ∷ place 15 15
    ∷ place 13 13
    ∷ place 40 41
    ∷ place 37 38
    ∷ place 43 44
    ∷ place 39 40
    ∷ place 42 43
    ∷ place 38 39
    ∷ place 51 52
    ∷ place 35 36
    ∷ place 0 0
    ∷ place 20 20
    ∷ place 16 16
    ∷ place 18 18
    ∷ place 19 19
    ∷ place 10 10
    ∷ []

flags_to_native-flags_to_old_example :
    ((flags_to_native (flags_to_old 0x4020 feature_flags) feature_flags).0 ≡ none)
    × ((k : ℕ)
        → bit_at k (flags_to_native (flags_to_old 0x4020 feature_flags) feature_flags).1
          ≡ (if listed k feature_places then bit_at k 0x4020 else 0))
flags_to_native-flags_to_old_example = flags_to_native-flags_to_old 0x4020 feature_places refl
