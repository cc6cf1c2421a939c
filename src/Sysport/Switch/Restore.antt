-- ===== src/Sysport/Switch/Restore.antt =====
-- What `sf2_6764_open` and `sf2_6764_close` (port66/enet66/sf2_6764.c) do to a port's controls.
use cudy_wr3600_openwrt.Prelude.{
  true, ◌-◌, ◌∙◌, Bool-cases, ap, arith, false, inl, inr, refl, suc, zero, ℕ, ◌%◌, ◌+◌, ◌/◌, ◌<◌,
  ◌==◌, ◌^◌, ◌≡◌, ◌≤◌,
}
use cudy_wr3600_openwrt.Sysport.Switch.{
  Switch, SwitchParams, max_ports, imp_port, each_port, reserve, enable_ports, override_ports,
  sf2_open, sf2_close,
}

each_port_below : (n i : ℕ) (value regs : ℕ → ℕ) → i < n → each_port n value regs i ≡ value i
unfolding each_port
each_port_below zero i value regs h = absurd (omega arith)
each_port_below (suc n) i value regs h = elim (Bool-cases (n == i)) [
  | inl e ↦ let same : n ≡ i = ground arith in rw e (ap value same)
  | inr ne ↦ rw ne (each_port_below n i value regs (ground arith))
]

each_port_above : (n i : ℕ) (value regs : ℕ → ℕ) → n ≤ i → each_port n value regs i ≡ regs i
unfolding each_port
each_port_above zero i value regs h = refl
each_port_above (suc n) i value regs h =
    let ne : n == i ≡ false = ground arith in rw ne (each_port_above n i value regs (omega arith))

-- The controls of an open port: both directions on, its group is itself and the CPU port, and its
-- reserved bits are those it had.
abbrev pub IsOpen : ℕ → Switch → Switch → Type 0
IsOpen i s t =
    (t.traffic_ctrl i % 2 ^ 2 ≡ 0)
    × (t.traffic_ctrl i / 2 ^ 5 ≡ 0)
    × (reserve (t.traffic_ctrl i) ≡ reserve (s.traffic_ctrl i))
    × (t.vlan_ctrl i ≡ 0x100 + 2 ^ i)

override_ports_lem :
    (p : SwitchParams) (s : Switch)
    → ((override_ports p s).traffic_ctrl ≡ s.traffic_ctrl)
      × ((override_ports p s).vlan_ctrl ≡ s.vlan_ctrl)
      × ((override_ports p s).saved ≡ s.saved)
      × ((override_ports p s).saved_port_ctrl ≡ s.saved_port_ctrl)
      × ((override_ports p s).saved_pbvlan ≡ s.saved_pbvlan)
unfolding override_ports
override_ports_lem p s = ground arith

-- A port's registers in `s` after an open from `s0`.
Opened : ℕ → Switch → Switch → Type 0
Opened i s t =
    (t.traffic_ctrl i ≡ reserve (s.traffic_ctrl i))
    × (t.vlan_ctrl i ≡ 0x100 + 2 ^ i)
    × (t.saved_port_ctrl i ≡ s.traffic_ctrl i % 2 ^ 8)
    × (t.saved_pbvlan i ≡ s.vlan_ctrl i % 2 ^ 16)
    × (t.saved ≡ true)

enable_ports-Opened : (s : Switch) (i : ℕ) → i < max_ports → Opened i s (enable_ports s)
unfolding enable_ports Opened
enable_ports-Opened s i h =
    let ne : imp_port == i ≡ false = ground arith in
    (
      rw ne (each_port_below 8 i (λ j. reserve (s.traffic_ctrl j)) s.traffic_ctrl h),
      rw ne (each_port_below 8 i (λ j. 0x100 + 2 ^ j) s.vlan_ctrl h),
      each_port_below 8 i (λ j. s.traffic_ctrl j % 2 ^ 8) s.saved_port_ctrl h,
      each_port_below 8 i (λ j. s.vlan_ctrl j % 2 ^ 16) s.saved_pbvlan h,
      refl,
    )

sf2_open-Opened :
    (p : SwitchParams) (s : Switch) (i : ℕ) → i < max_ports → Opened i s (sf2_open p s)
unfolding sf2_open Opened
sf2_open-Opened p s i h =
    let (t, v, c, g, b) = enable_ports-Opened s i h in
    let (ot, ov, os, oc, og) = override_ports_lem p (enable_ports s) in
    (ap (λ f. f i) ot ∙ t, ap (λ f. f i) ov ∙ v, ap (λ f. f i) oc ∙ c, ap (λ f. f i) og ∙ g, os ∙ b)

sf2_close_at :
    (u : Switch) (i : ℕ)
    → i < max_ports
    → u.saved ≡ true
    → ((sf2_close u).traffic_ctrl i
        ≡ reserve (u.traffic_ctrl i) + (u.saved_port_ctrl i - reserve (u.saved_port_ctrl i)))
      × ((sf2_close u).vlan_ctrl i ≡ u.saved_pbvlan i)
unfolding sf2_close
sf2_close_at u i h b =
    let ctrl : ℕ → ℕ =
      λ j. reserve (u.traffic_ctrl j) + (u.saved_port_ctrl j - reserve (u.saved_port_ctrl j)) in
    ground (
      arith,
      each_port_below 8 i ctrl u.traffic_ctrl h,
      each_port_below 8 i u.saved_pbvlan u.vlan_ctrl h,
    )

pub sf2_close-sf2_open :
    (p : SwitchParams) (s : Switch) (i : ℕ)
    → i < max_ports
    → IsOpen i s (sf2_open p s)
      × ((sf2_close (sf2_open p s)).traffic_ctrl i ≡ s.traffic_ctrl i % 2 ^ 8)
      × ((sf2_close (sf2_open p s)).vlan_ctrl i ≡ s.vlan_ctrl i % 2 ^ 16)
unfolding Opened
sf2_close-sf2_open p s i h =
    let (t, v, c, g, b) = sf2_open-Opened p s i h in
    let (x, y) = sf2_close_at (sf2_open p s) i h b in
    ((omega (arith, t), omega (arith, t), omega (arith, t), v), omega (arith, x, t, c), y ∙ g)
