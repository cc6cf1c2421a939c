-- ===== src/Sysport/Open/Count.antt =====
-- The count of open netdevs in sysport6764.c against the state of the shared hardware.
use cudy_wr3600_openwrt.Prelude.{
  ap, ◌%◌, ◌^◌, ◌∙◌, ◌==◌, arith, refl, ◌<◌, Bool, Errno, Option, false, if◌then◌else◌, ltb, none,
  some, true, ℕ, ◌+◌, ◌≡◌,
}
use cudy_wr3600_openwrt.Sysport.{num_rx_bufs, Config, Role, lan, wan}
use cudy_wr3600_openwrt.Sysport.Switch.Restore.{sf2_close-sf2_open}
use cudy_wr3600_openwrt.Sysport.Switch.{max_ports, sf2_open, sf2_close, SwitchParams}
use cudy_wr3600_openwrt.Sysport.Open.{
  open_after, init_rx_descs, sf2_open, Mac, enable_rdma, enable_tdma, hw_stop, start, give_up,
  hw_up, hw_down, open_ndev, stop_ndev,
}

abbrev pub count : Bool → ℕ
count b = if b then 1 else 0

-- The hardware runs exactly while a netdev is open, and the count is that of the open netdevs.
pub record IsMac (s : Mac) : Type 0 where
  pub counted : s.open_count ≡ count s.lan_carrier + count s.wan_carrier
  pub runs : s.running ≡ ltb 0 s.open_count
  pub polls : s.napi ≡ s.running
  pub ticks : s.timer ≡ s.running
  pub receives : s.rdma_on ≡ s.running
  pub sends : s.tdma_on ≡ s.running
  pub lan_queued : s.lan_queue ≡ s.lan_carrier
  pub wan_queued : s.wan_queue ≡ s.wan_carrier

-- Whether a netdev is open; the networking core opens only closed ones and stops only open ones.
abbrev pub is_up : Role → Mac → Bool
is_up lan s = s.lan_carrier
is_up wan s = s.wan_carrier

-- A step of the networking core.
pub data Step (p : SwitchParams) (c : Config) (s : Mac) : Mac → Type 0 where
  opens : (role : Role) → is_up role s ≡ false → Step p c s (open_ndev p c role s).1
  stops : (role : Role) → is_up role s ≡ true → Step p c s (stop_ndev role s)

pub data Reach (p : SwitchParams) (c : Config) (s : Mac) : Mac → Type 0 where
  here : Reach p c s s
  next : {t u : Mac} → Reach p c s t → Step p c t u → Reach p c s u

-- What an attempt to bring the hardware up does to the fields that the invariant reads.
abbrev BroughtUp : SwitchParams → Mac → Option Errno × Mac → Type 0
BroughtUp p s (none, t) =
    (t.running ≡ true)
    × (t.napi ≡ true)
    × (t.timer ≡ true)
    × (t.rdma_on ≡ true)
    × (t.tdma_on ≡ true)
    × (t.open_count ≡ s.open_count)
    × (t.lan_carrier ≡ s.lan_carrier)
    × (t.wan_carrier ≡ s.wan_carrier)
    × (t.lan_queue ≡ s.lan_queue)
    × (t.wan_queue ≡ s.wan_queue)
BroughtUp p s (some e, t) =
    (t.switch ≡ sf2_close (sf2_open p s.switch))
    × (t.running ≡ s.running)
    × (t.napi ≡ s.napi)
    × (t.timer ≡ s.timer)
    × (t.rdma_on ≡ false)
    × (t.tdma_on ≡ false)
    × (t.open_count ≡ s.open_count)
    × (t.lan_carrier ≡ s.lan_carrier)
    × (t.wan_carrier ≡ s.wan_carrier)
    × (t.lan_queue ≡ s.lan_queue)
    × (t.wan_queue ≡ s.wan_queue)

-- Two states that differ in nothing that the invariant reads but the DMA engines.
record Same (s t : Mac) : Type 0 where
  running : t.running ≡ s.running
  napi : t.napi ≡ s.napi
  timer : t.timer ≡ s.timer
  open_count : t.open_count ≡ s.open_count
  lan_carrier : t.lan_carrier ≡ s.lan_carrier
  wan_carrier : t.wan_carrier ≡ s.wan_carrier
  lan_queue : t.lan_queue ≡ s.lan_queue
  wan_queue : t.wan_queue ≡ s.wan_queue

enable_rdma-Same :
    (s : Mac)
    → Same s (enable_rdma s).1
      × ((enable_rdma s).1.rdma_on ≡ true)
      × ((enable_rdma s).1.switch ≡ s.switch)
unfolding enable_rdma
enable_rdma-Same s = ground arith

enable_tdma-Same :
    (s : Mac)
    → Same s (enable_tdma s).1
      × ((enable_tdma s).1.tdma_on ≡ true)
      × ((enable_tdma s).1.rdma_on ≡ s.rdma_on)
      × ((enable_tdma s).1.switch ≡ s.switch)
unfolding enable_tdma
enable_tdma-Same s = ground arith

up_at :
    (p : SwitchParams) (s u v : Mac) (r q : Option Errno)
    → Same s u
    → Same u v
    → v.rdma_on ≡ true
    → v.tdma_on ≡ true
    → u.switch ≡ sf2_open p s.switch
    → v.switch ≡ u.switch
    → BroughtUp p s (elim r as (λ x. Option Errno × Mac) [
      | some e ↦ (some e, give_up u)
      | none ↦ elim q as (λ x. Option Errno × Mac) [
        | some e ↦ (some e, give_up v)
        | none ↦ (none, start v)
      ]
    ])
unfolding give_up hw_stop start
up_at p s u v (some e) q su uv rx tx us vs = ground (arith, su)
up_at p s u v none (some e) su uv rx tx us vs = ground (arith, su, uv)
up_at p s u v none none su uv rx tx us vs = ground (arith, su, uv)

hw_up-BroughtUp : (p : SwitchParams) (c : Config) (s : Mac) → BroughtUp p s (hw_up p c s)
unfolding hw_up
hw_up-BroughtUp p c s =
    let t = record s {
      switch = sf2_open p s.switch;
      rx_c_idx = 0;
      rx_hw = init_rx_descs num_rx_bufs c s.rx_hw;
    } in
    let u = enable_rdma t in
    let v = enable_tdma u.1 in
    let (tu, rx, us) = enable_rdma-Same t in
    let (uv, tx, kept, vs) = enable_tdma-Same u.1 in
    let su : Same s u.1 = ground (arith, tu) in up_at p s u.1 v.1 u.0 v.0 su uv (kept ∙ rx) tx us vs

opened_first :
    (p : SwitchParams) (role : Role) (s : Mac) (first : Option Errno × Mac)
    → IsMac s
    → is_up role s ≡ false
    → s.open_count ≡ 0
    → BroughtUp p s first
    → IsMac (open_after role first).1
opened_first p lan s (none, t) v up z b = ground (arith, v, b)
opened_first p wan s (none, t) v up z b = ground (arith, v, b)
opened_first p role s (some e, t) v up z b = ground (arith, v, b)

opened-IsMac :
    (b : Bool) (p : SwitchParams) (c : Config) (role : Role) (s : Mac)
    → IsMac s
    → is_up role s ≡ false
    → (s.open_count == 0) ≡ b
    → IsMac (open_after role (if b then hw_up p c s else (none, s))).1
opened-IsMac true p c role s v up z =
    opened_first p role s (hw_up p c s) v up (ground arith) (hw_up-BroughtUp p c s)
opened-IsMac false p c lan s v up z = ground (arith, v)
opened-IsMac false p c wan s v up z = ground (arith, v)

open_ndev-IsMac :
    (p : SwitchParams) (c : Config) (role : Role) (s : Mac)
    → IsMac s
    → is_up role s ≡ false
    → IsMac (open_ndev p c role s).1
unfolding open_ndev
open_ndev-IsMac p c role s v up = opened-IsMac (s.open_count == 0) p c role s v up refl

stop_ndev-IsMac : (role : Role) (s : Mac) → IsMac s → is_up role s ≡ true → IsMac (stop_ndev role s)
unfolding stop_ndev hw_down give_up hw_stop
stop_ndev-IsMac lan s v up = ground (arith, v)
stop_ndev-IsMac wan s v up = ground (arith, v)

Step-IsMac : {p : SwitchParams} {c : Config} {t u : Mac} → Step p c t u → IsMac t → IsMac u
Step-IsMac {p} {c} {t} (opens role up) v = open_ndev-IsMac p c role t v up
Step-IsMac {p} {c} {t} (stops role up) v = stop_ndev-IsMac role t v up

-- Every sequence of opens of closed netdevs, failed ones included, and of stops of open ones, from a
-- valid state, keeps count: the shared hardware, NAPI and the timer run exactly while a netdev is
-- open, and the count is the number of the open ones.
pub reachable-IsMac :
    {p : SwitchParams} {c : Config} {s t : Mac} → IsMac s → Reach p c s t → IsMac t
reachable-IsMac v here = v
reachable-IsMac v (next r st) = Step-IsMac st (reachable-IsMac v r)

-- What a failed open leaves of port `i`.
abbrev pub Failed : ℕ → Mac → Option Errno × Mac → Type 0
Failed i s (none, t) = Unit
Failed i s (some e, t) =
    (t.switch.traffic_ctrl i ≡ s.switch.traffic_ctrl i % 2 ^ 8)
    × (t.switch.vlan_ctrl i ≡ s.switch.vlan_ctrl i % 2 ^ 16)
    × (t.open_count ≡ 0)

Failed-at :
    (p : SwitchParams) (role : Role) (s : Mac) (i : ℕ) (first : Option Errno × Mac)
    → BroughtUp p s first
    → s.open_count ≡ 0
    → (sf2_close (sf2_open p s.switch)).traffic_ctrl i ≡ s.switch.traffic_ctrl i % 2 ^ 8
    → (sf2_close (sf2_open p s.switch)).vlan_ctrl i ≡ s.switch.vlan_ctrl i % 2 ^ 16
    → Failed i s (open_after role first)
Failed-at p role s i (none, t) b z x y = tt
Failed-at p role s i (some e, t) b z x y =
    (ap (λ w. w.traffic_ctrl i) b.0 ∙ x, ap (λ w. w.vlan_ctrl i) b.0 ∙ y, ground (arith, b, z))

Failed-if :
    (b : Bool) (p : SwitchParams) (c : Config) (role : Role) (s : Mac) (i : ℕ)
    → i < max_ports
    → (s.open_count == 0) ≡ b
    → Failed i s (open_after role (if b then hw_up p c s else (none, s)))
Failed-if true p c role s i h z =
    let (o, x, y) = sf2_close-sf2_open p s.switch i h in
    Failed-at p role s i (hw_up p c s) (hw_up-BroughtUp p c s) (ground arith) x y
Failed-if false p c role s i h z = tt

-- An open that fails closes the switch that it opened: every user port has the controls back that it
-- had, and no netdev counts as open.
pub open_ndev-Failed :
    (p : SwitchParams) (c : Config) (role : Role) (s : Mac) (i : ℕ)
    → i < max_ports
    → Failed i s (open_ndev p c role s)
unfolding open_ndev
open_ndev-Failed p c role s i h = Failed-if (s.open_count == 0) p c role s i h refl
