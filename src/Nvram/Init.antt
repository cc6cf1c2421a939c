-- ===== src/Nvram/Init.antt =====
-- shim_nvram.c at module load: the factory seed, the per-unit parameters over it, and the MAC
-- addresses. `mac_pton` and the `%pM` conversion are the kernel's, and are parameters here.
pub mod Seeding
pub mod Boot
use cudy_wr3600_openwrt.Prelude.{
  Bool, CString, List, Option, Result, [], codes, einval, enomem, err, false, get_elem?,
  if◌then◌else◌, none, ok, set, some, take, true, ℕ, ◌%◌, ◌+◌, ◌==◌, ◌∷◌,
}
use cudy_wr3600_openwrt.Nvram.{Entry, Nvram, k_set_worker, set_locked, find_locked, or_empty}
use cudy_wr3600_openwrt.Nvram.Store.{lookup, lookup-k_set}

-- `mac[ETH_ALEN - 1] += add` on bytes: the last octet wraps.
abbrev pub bump_last : ℕ → List ℕ → List ℕ
bump_last add mac = elim (get_elem? mac 5) [
  | some last ↦ set mac 5 ((last + add) % 256)
  | none ↦ mac
]

-- The module parameters, and the generated seed table.
pub record Params : Type 0 where
  pub et0macaddr : CString
  pub wl0_hwaddr : CString
  pub wl1_hwaddr : CString
  pub wl_mlo_config : CString
  pub seed : List Entry

abbrev pub key_mlo : CString
key_mlo = codes "wl_mlo_config"

abbrev pub key_et0 : CString
key_et0 = codes "et0macaddr"

abbrev pub key_sb0 : CString
key_sb0 = codes "sb/0/macaddr"

abbrev pub key_sb1 : CString
key_sb1 = codes "sb/1/macaddr"

-- The loop over the seed table: how many keys were taken, and the store.
pub seed_all : List Entry → ℕ → Nvram → ℕ × Nvram
seed_all [] seeded s = (seeded, s)
seed_all (e ∷ es) seeded s =
    let (ret, s') = k_set_worker (some e.name) (some e.value) s in
    seed_all es (if ret == 0 then seeded + 1 else seeded) s'

module _ (mac_pton : CString → Option (List ℕ)) (print_mac : List ℕ → CString) where
  -- `kerSysGetMacAddress`; the flag is whether the caller's buffer is there.
  pub get_mac_address : Params → Bool → ℕ → Result (List ℕ)
  get_mac_address p false id = err einval
  get_mac_address p true id = elim (mac_pton p.et0macaddr) [
    | none ↦ err einval
    | some mac ↦ ok (bump_last (id % 256) mac)
  ]

  -- `shim_mac_bump` into a buffer of 18 bytes: 17 characters and the NUL.
  pub mac_bump : CString → ℕ → Option CString
  mac_bump src add = elim (mac_pton src) [
    | none ↦ none
    | some mac ↦ some (take 17 (print_mac (bump_last add mac)))
  ]

  -- One radio's address: the parameter if it is set, else the base address plus `add`.
  pub seed_radio : CString → CString → CString → ℕ → Nvram → Nvram
  seed_radio key [] base add s = elim (mac_bump base add) [
    | some text ↦ (k_set_worker (some key) (some text) s).1
    | none ↦ s
  ]
  seed_radio key (c ∷ hwaddr) base add s = (k_set_worker (some key) (some (c ∷ hwaddr)) s).1

  -- `shim_nvram_init`
  pub init : Params → Nvram → Result (Unit {0}) × Nvram
  init p s =
      let s1 = (seed_all p.seed 0 s).1 in
      let (ret, s2) = k_set_worker (some key_mlo) (some p.wl_mlo_config) s1 in
      let s3 = (k_set_worker (some key_et0) (some p.et0macaddr) s2).1 in
      let s4 = seed_radio key_sb0 p.wl0_hwaddr p.et0macaddr 2 s3 in
      let s5 = seed_radio key_sb1 p.wl1_hwaddr p.et0macaddr 3 s4 in
      if ret == 0 then (ok tt, s5) else (err enomem, s2)
