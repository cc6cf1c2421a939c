-- ===== src/Tests/NvramRuns.antt =====
-- shim_nvram.c on a small store, with the kernel's MAC address conversions written out.
use cudy_wr3600_openwrt.Prelude.{
  All, List, Memory, [], arith, codes, false, if◌then◌else◌, length, ok, pos, some, str_eq, true, ℕ,
  ◌<◌, ◌==◌, ◌∷◌, ◌≡◌, ◌≤◌,
}
use cudy_wr3600_openwrt.Nvram.{find_locked, Entry, Nvram, k_set_worker, getall}
use cudy_wr3600_openwrt.Nvram.Store.{lookup, lookup-k_set}
use cudy_wr3600_openwrt.Nvram.Getall.{
  IsPrintable, read_pairs, in_name, fitting, total, getall_roundtrip,
}

abbrev plenty : Memory
plenty = record { grants = λ n. true; asked = 0; live = 0 }

abbrev empty_store : Nvram
empty_store = record { entries = []; mem = plenty; misses = 0; log = []; cap_warned = false }

abbrev ssid : Entry
ssid = record { name = codes "ssid"; value = codes "home" }

abbrev band : Entry
band = record { name = codes "band"; value = codes "5" }

abbrev two_entries : Nvram
two_entries = record empty_store { entries = ssid ∷ band ∷ [] }

lookup-k_set_example :
    lookup (codes "ssid") (k_set_worker (some (codes "ssid")) (some (codes "lab")) two_entries).1
    ≡ (if (k_set_worker (some (codes "ssid")) (some (codes "lab")) two_entries).0 == 0
        then some (codes "lab")
        else some (codes "home"))
unfolding str_eq find_locked
lookup-k_set_example =
    lookup-k_set 115 (codes "sid") (some (codes "lab")) two_entries (codes "ssid")

abbrev both_printable : All IsPrintable two_entries.entries
both_printable = (
  record { name_lem = ground arith; value_lem = ground arith },
  (record { name_lem = ground arith; value_lem = ground arith }, tt),
)

getall_roundtrip_example :
    (bytes : List ℕ) × (getall true (pos 12) two_entries ≡ ok bytes)
    × (0 < length bytes)
    × (length bytes ≤ 12)
    × (read_pairs (in_name []) bytes ≡ fitting 12 two_entries.entries)
getall_roundtrip_example = getall_roundtrip 12 two_entries (omega arith) both_printable

small : total two_entries.entries < 64
unfolding total
small = omega arith
