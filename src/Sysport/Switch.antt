-- ===== src/Sysport/Switch.antt =====
-- The port controls of the integrated switch, port66/enet66/sf2_6764.c: opened before the MAC starts
-- and restored when it stops.
pub mod Restore
use cudy_wr3600_openwrt.Prelude.{
  update, Bool, if◌then◌else◌, leb, negsuc, not, pos, suc, true, zero, ℕ, ℤ, ◌%◌, ◌&&◌, ◌*◌, ◌+◌,
  ◌-◌, ◌/◌, ◌==◌, ◌^◌,
}

-- Registers of the switch core by port, and what `sf2_6764_open` saved of them.
pub record Switch : Type 0 where
  pub traffic_ctrl : ℕ → ℕ
  pub vlan_ctrl : ℕ → ℕ
  pub sts_override : ℕ → ℕ
  pub saved : Bool
  pub saved_port_ctrl : ℕ → ℕ
  pub saved_pbvlan : ℕ → ℕ
  pub ports_enabled : ℕ  -- how often MK_PORTS_ENABLED was marked

-- Module parameters of sf2_6764.c.
pub record SwitchParams : Type 0 where
  pub serdes_port : ℤ
  pub p0_ovr : ℤ
  pub wan_port : ℕ

abbrev pub max_ports : ℕ
max_ports = 8

abbrev pub imp_port : ℕ
imp_port = 8

-- A loop over the first `n` ports that writes one register of each.
pub each_port : ℕ → (ℕ → ℕ) → (ℕ → ℕ) → ℕ → ℕ
each_port zero value regs = regs
each_port (suc n) value regs = update (each_port n value regs) n (value n)

-- `x & PORT_CTRL_SWITCH_RESERVE`, bits 2 to 4; in a byte this is also what clearing the RX and TX
-- disable bits and the STP state leaves.
abbrev pub reserve : ℕ → ℕ
reserve x = x / 2 ^ 2 % 2 ^ 3 * 2 ^ 2

-- The port controls that the first half of `sf2_6764_open` writes.
pub enable_ports : Switch → Switch
enable_ports s =
    let kept = record s {
      saved_port_ctrl = each_port max_ports (λ i. s.traffic_ctrl i % 2 ^ 8) s.saved_port_ctrl;
      saved_pbvlan = each_port max_ports (λ i. s.vlan_ctrl i % 2 ^ 16) s.saved_pbvlan;
      saved = true;
    } in
    record kept {
      vlan_ctrl = update (each_port max_ports (λ i. 0x100 + 2 ^ i) kept.vlan_ctrl) imp_port 0x1ff;
      traffic_ctrl =
          update (each_port max_ports (λ i. reserve (kept.traffic_ctrl i)) kept.traffic_ctrl)
            imp_port 0x1c;
    }

-- The forced link states of the second half.
pub override_ports : SwitchParams → Switch → Switch
override_ports p s =
    let forced = 0x40 + 0x0c + 0x02 + 0x01 in
    let p0 : ℕ = elim p.p0_ovr [ pos n ↦ n | negsuc n ↦ 0x40 + 0x08 + 0x02 + 0x01 ] in
    elim p.serdes_port [
      | negsuc n ↦ s
      | pos port ↦
          let both = update (update s.sts_override port forced) 0 p0 in
          let third = not (p.wan_port == 0) && not (p.wan_port == port) in
          if leb port 7
          then record s { sts_override = if third then update both p.wan_port forced else both }
          else s
    ]

-- `sf2_6764_open`, which always returns 0.
pub sf2_open : SwitchParams → Switch → Switch
sf2_open p s =
    let t = override_ports p (enable_ports s) in record t { ports_enabled = t.ports_enabled + 1 }

-- `sf2_6764_close`
pub sf2_close : Switch → Switch
sf2_close s =
    let restored = record s {
      traffic_ctrl =
          each_port max_ports
            (λ i.
              reserve (s.traffic_ctrl i) + (s.saved_port_ctrl i - reserve (s.saved_port_ctrl i)))
            s.traffic_ctrl;
      vlan_ctrl = each_port max_ports s.saved_pbvlan s.vlan_ctrl;
    } in
    if s.saved then restored else s
