-- ===== src/Sysport/Open.antt =====
-- Opening and closing the netdevs of port66/enet66/sysport6764.c: the hardware that both share is
-- brought up by the first open and taken down by the last close.
pub mod Count
use cudy_wr3600_openwrt.Prelude.{
  Bool, Errno, List, Option, etimedout, false, if◌then◌else◌, ltb, none, not, some, suc, true, zero,
  ℕ, ◌%◌, ◌+◌, ◌-◌, ◌/◌, ◌==◌, ◌^◌, ◌∷◌,
}
use cudy_wr3600_openwrt.Sysport.{Config, Role, lan, wan, num_rx_bufs}
use cudy_wr3600_openwrt.Sysport.Rx.{Hw, desc_set}
use cudy_wr3600_openwrt.Sysport.Switch.{Switch, SwitchParams, sf2_open, sf2_close}

-- The part of `struct sysport6764` and of the hardware that opening and closing change. The status
-- registers are read from the hardware's traces.
pub record Mac : Type 0 where
  pub switch : Switch
  pub rdma_on : Bool
  pub tdma_on : Bool
  pub rdma_status : ℕ → ℕ
  pub rdma_reads : ℕ
  pub tdma_status : ℕ → ℕ
  pub tdma_reads : ℕ
  pub pc_index : ℕ → ℕ
  pub pc_reads : ℕ
  pub rx_hw : Hw
  pub rx_c_idx : ℕ
  pub tx_busy : Bool
  pub tx_ndev : Option Role
  pub running : Bool
  pub napi : Bool
  pub timer : Bool
  pub open_count : ℕ
  pub lan_carrier : Bool
  pub wan_carrier : Bool
  pub lan_queue : Bool
  pub wan_queue : Bool
  pub marks : List ℕ

-- `sp_init_rx_descs`, from the last descriptor back; each has a slot of its own.
pub init_rx_descs : ℕ → Config → Hw → Hw
init_rx_descs zero c hw = hw
init_rx_descs (suc n) c hw = desc_set c n (init_rx_descs n c hw)

-- A wait of at most `n` polls for a status whose two low bits are clear, and the polls it took.
pub wait_ready : ℕ → (ℕ → ℕ) → ℕ → Bool × ℕ
wait_ready zero status at = (false, at)
wait_ready (suc n) status at =
    let rest = wait_ready n status (at + 1) in
    if status at % 2 ^ 2 == 0 then (true, at + 1) else rest

-- `sp_enable_rdma`
pub enable_rdma : Mac → Option Errno × Mac
enable_rdma s =
    let (ready, at) = wait_ready 1000 s.rdma_status s.rdma_reads in
    let t = record s { rdma_on = true; rdma_reads = at } in
    if ready then (none, t) else (some etimedout, record t { marks = 0xeb ∷ s.marks })

-- `sp_enable_tdma`
pub enable_tdma : Mac → Option Errno × Mac
enable_tdma s =
    let (ready, at) = wait_ready 1000 s.tdma_status s.tdma_reads in
    let t = record s { tdma_on = true; tdma_reads = at } in
    if ready then (none, t) else (some etimedout, record t { marks = 0xec ∷ s.marks })

-- The wait of `sp_hw_stop` for the transmit ring to drain.
pub drain : ℕ → (ℕ → ℕ) → ℕ → ℕ
drain zero index at = at
drain (suc n) index at =
    let rest = drain n index (at + 1) in
    if index at % 2 ^ 16 == index at / 2 ^ 16 % 2 ^ 16 then at + 1 else rest

-- `sp_hw_stop`
pub hw_stop : Mac → Mac
hw_stop s = record s {
  rdma_on = false;
  tdma_on = false;
  pc_reads = drain 1000 s.pc_index s.pc_reads;
}

-- The tail of `sp_hw_up`, once both engines run.
pub start : Mac → Mac
start s = record s {
  marks = 0x67 ∷ s.marks;
  tx_busy = false;
  tx_ndev = none;
  running = true;
  napi = true;
  timer = true;
}

-- The `err` label of `sp_hw_up`.
pub give_up : Mac → Mac
give_up s = let t = hw_stop s in record t { switch = sf2_close t.switch }

-- `sp_hw_up`
pub hw_up : SwitchParams → Config → Mac → Option Errno × Mac
hw_up p c s =
    let t = record s {
      switch = sf2_open p s.switch;
      rx_c_idx = 0;
      rx_hw = init_rx_descs num_rx_bufs c s.rx_hw;
    } in
    let (r, u) = enable_rdma t in
    let (q, v) = enable_tdma u in
    elim r [
      | some e ↦ (some e, give_up u)
      | none ↦ elim q [ some e ↦ (some e, give_up v) | none ↦ (none, start v) ]
    ]

-- `sp_hw_down`
pub hw_down : Mac → Mac
hw_down s = give_up (record s { running = false; timer = false; napi = false })

-- `netif_carrier_on` and `netif_start_queue`, or their opposites.
abbrev pub set_link : Role → Bool → Mac → Mac
set_link lan on s = record s { lan_carrier = on; lan_queue = on }
set_link wan on s = record s { wan_carrier = on; wan_queue = on }

-- The end of `sp_open`, from the result of bringing the hardware up on.
abbrev pub open_after : Role → Option Errno × Mac → Option Errno × Mac
open_after role (some e, s) = (some e, s)
open_after role (none, s) = (none, set_link role true (record s { open_count = s.open_count + 1 }))

-- `sp_open`
pub open_ndev : SwitchParams → Config → Role → Mac → Option Errno × Mac
open_ndev p c role s = open_after role (if s.open_count == 0 then hw_up p c s else (none, s))

-- `sp_stop`
pub stop_ndev : Role → Mac → Mac
stop_ndev role s =
    let t = set_link role false s in
    let u = record t { open_count = s.open_count - 1 } in
    if not (ltb 0 s.open_count) then t else if u.open_count == 0 then hw_down u else u
