-- ===== src/Nvram/Init/Boot.antt =====
-- What shim_nvram.c's store answers once `shim_nvram_init` has run with memory to spare.
use cudy_wr3600_openwrt.Nvram.Init.Seeding.{
  Ample, Ample-k_set, lookup-store, lookup-store_entry, lookup-seed_all, last_value, or_else,
  IsNamed,
}
use cudy_wr3600_openwrt.Prelude.{
  take_all, ◌%◌, ◌<◌, ◌≤◌, codes, ok, All, List, false, length, CString, Option, [], arith,
  if◌then◌else◌, none, some, str_eq, true, ℕ, ◌∙◌, ◌∷◌, ◌≡◌,
}
use cudy_wr3600_openwrt.Nvram.{Nvram, k_set_worker}
use cudy_wr3600_openwrt.Nvram.Store.{lookup}
use cudy_wr3600_openwrt.Nvram.Init.{
  bump_last, Params, key_mlo, key_et0, key_sb0, key_sb1, seed_all, get_mac_address, mac_bump,
  seed_radio, init,
}

module _ (mac_pton : CString → Option (List ℕ)) (print_mac : List ℕ → CString) where
  -- What the store should hold for a radio: the parameter, else the derived address, else `old`.
  abbrev pub radio_value : CString → CString → ℕ → Option CString → Option CString
  radio_value [] base add old = or_else (mac_bump mac_pton print_mac base add) old
  radio_value (c ∷ hwaddr) base add old = some (c ∷ hwaddr)

  lookup_derived :
      (c : ℕ) (key : CString) (m : Option CString) (s : Nvram) (j : CString)
      → Ample s
      → (lookup j
            (elim m [ some text ↦ (k_set_worker (some (c ∷ key)) (some text) s).1 | none ↦ s ])
          ≡ (if str_eq (c ∷ key) j then or_else m (lookup j s) else lookup j s))
        × Ample (elim m [ some text ↦ (k_set_worker (some (c ∷ key)) (some text) s).1 | none ↦ s ])
  lookup_derived c key none s j a = (ground arith, a)
  lookup_derived c key (some text) s j a = (lookup-store c key text s j a, Ample-k_set _ _ s a)

  lookup-seed_radio :
      (c : ℕ) (key hwaddr base : CString) (add : ℕ) (s : Nvram) (j : CString)
      → Ample s
      → (lookup j (seed_radio mac_pton print_mac (c ∷ key) hwaddr base add s)
          ≡ (if str_eq (c ∷ key) j then radio_value hwaddr base add (lookup j s) else lookup j s))
        × Ample (seed_radio mac_pton print_mac (c ∷ key) hwaddr base add s)
  unfolding seed_radio
  lookup-seed_radio c key [] base add s j a =
      lookup_derived c key (mac_bump mac_pton print_mac base add) s j a
  lookup-seed_radio c key (h ∷ hwaddr) base add s j a =
      (lookup-store c key (h ∷ hwaddr) s j a, Ample-k_set _ _ s a)

  -- What the store holds once the module is loaded.
  pub record Booted (p : Params) (old : Nvram) (s : Nvram) : Type 0 where
    pub base_mac : lookup key_et0 s ≡ some p.et0macaddr
    pub mlo : lookup key_mlo s ≡ some p.wl_mlo_config
    pub radio0 :
        lookup key_sb0 s
        ≡ radio_value p.wl0_hwaddr p.et0macaddr 2
            (or_else (last_value key_sb0 p.seed) (lookup key_sb0 old))
    pub radio1 :
        lookup key_sb1 s
        ≡ radio_value p.wl1_hwaddr p.et0macaddr 3
            (or_else (last_value key_sb1 p.seed) (lookup key_sb1 old))
    pub rest :
        (j : CString)
        → str_eq key_et0 j ≡ false
        → str_eq key_mlo j ≡ false
        → str_eq key_sb0 j ≡ false
        → str_eq key_sb1 j ≡ false
        → lookup j s ≡ or_else (last_value j p.seed) (lookup j old)

  -- The lookups after `init`, as the four stores over the seed leave them.
  init_at :
      (p : Params) (s : Nvram) (j : CString)
      → Ample s
      → All IsNamed p.seed
      → ((init mac_pton print_mac p s).0 ≡ ok tt)
        × (lookup j (init mac_pton print_mac p s).1 ≡ (
            let e1 = or_else (last_value j p.seed) (lookup j s) in
            let e2 = if str_eq key_mlo j then some p.wl_mlo_config else e1 in
            let e3 = if str_eq key_et0 j then some p.et0macaddr else e2 in
            let e4 = if str_eq key_sb0 j then radio_value p.wl0_hwaddr p.et0macaddr 2 e3 else e3 in
            if str_eq key_sb1 j then radio_value p.wl1_hwaddr p.et0macaddr 3 e4 else e4))
  unfolding init
  init_at p s j a n =
      let s1 = (seed_all p.seed 0 s).1 in
      let s2 = (k_set_worker (some key_mlo) (some p.wl_mlo_config) s1).1 in
      let s3 = (k_set_worker (some key_et0) (some p.et0macaddr) s2).1 in
      let s4 = seed_radio mac_pton print_mac key_sb0 p.wl0_hwaddr p.et0macaddr 2 s3 in
      let (q1, counted, a1) = lookup-seed_all p.seed 0 s j a n in
      let (q2, z2) = lookup-store_entry key_mlo p.wl_mlo_config s1 j (λ e. cc) a1 in
      let a2 : Ample s2 = Ample-k_set (some key_mlo) (some p.wl_mlo_config) s1 a1 in
      let (q3, z3) = lookup-store_entry key_et0 p.et0macaddr s2 j (λ e. cc) a2 in
      let a3 : Ample s3 = Ample-k_set (some key_et0) (some p.et0macaddr) s2 a2 in
      let (q4, a4) =
        lookup-seed_radio b's' (codes "b/0/macaddr") p.wl0_hwaddr p.et0macaddr 2 s3 j a3 in
      let (q5, a5) =
        lookup-seed_radio b's' (codes "b/1/macaddr") p.wl1_hwaddr p.et0macaddr 3 s4 j a4 in
      (rw z2, rw (z2, q5, q4, q3, q2, q1))

  -- With memory to spare and a seed without empty names, loading the module succeeds; the base
  -- address and the MLO map are the parameters, each radio's address is its parameter or else is
  -- derived from the base address by 2 or 3 (a base that does not parse leaves the seeded one), and
  -- every other key holds its last seeded value.
  pub init-Booted :
      (p : Params) (s : Nvram)
      → Ample s
      → All IsNamed p.seed
      → ((init mac_pton print_mac p s).0 ≡ ok tt) × Booted p s (init mac_pton print_mac p s).1
  unfolding str_eq
  init-Booted p s a n = (
    (init_at p s [] a n).0,
    record {
      base_mac = (init_at p s key_et0 a n).1;
      mlo = (init_at p s key_mlo a n).1;
      radio0 = (init_at p s key_sb0 a n).1;
      radio1 = (init_at p s key_sb1 a n).1;
      rest = λ j et0 mlo sb0 sb1. (init_at p s j a n).1 ∙ rw (et0, mlo, sb0, sb1);
    },
  )

  -- The derived address of a radio is, as text, the address that `kerSysGetMacAddress` hands out for
  -- the number 2 or 3, if the printed form of a MAC address is at most 17 characters and reads back.
  pub radio_value-get_mac_address :
      (p : Params) (add : ℕ) (mac : List ℕ) (old : Option CString)
      → add < 256
      → mac_pton p.et0macaddr ≡ some mac
      → length (print_mac (bump_last add mac)) ≤ 17
      → mac_pton (print_mac (bump_last add mac)) ≡ some (bump_last add mac)
      → (text : CString) × (radio_value [] p.et0macaddr add old ≡ some text)
        × (get_mac_address mac_pton print_mac p true add ≡ ok (bump_last add mac))
        × (mac_pton text ≡ some (bump_last add mac))
  unfolding mac_bump get_mac_address
  radio_value-get_mac_address p add mac old h e l r =
      let whole = take_all 17 (print_mac (bump_last add mac)) l in
      let small : add % 256 ≡ add = omega arith in
      (print_mac (bump_last add mac), rw (e, mac_bump, whole), rw (e, get_mac_address, small), r)
