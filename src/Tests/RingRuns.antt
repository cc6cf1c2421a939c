-- ===== src/Tests/RingRuns.antt =====
-- The rings of sysport6764.c in split mode, with one frame in each direction.
use cudy_wr3600_openwrt.Prelude.{
  List, Memory, [], arith, false, none, pos, refl, true, ℕ, ◌*◌, ◌++◌, ◌<◌, ◌^◌, ◌↔◌, ◌∷◌, ◌≡◌, ◌⊎◌,
}
use cudy_wr3600_openwrt.Sysport.{Config, wan, b53, zero_rx_stats, zero_tx_stats}
use cudy_wr3600_openwrt.Sysport.Tag.{rx_role}
use cudy_wr3600_openwrt.Sysport.Tag.Ports.{FromPort, rx_role-FromPort}
use cudy_wr3600_openwrt.Sysport.Rx.{Hw, Rx, rx_one, is_tagged}
use cudy_wr3600_openwrt.Sysport.Rx.Ring.{Outcome, rx_one-Outcome}
use cudy_wr3600_openwrt.Sysport.Rx.Deliver.{rx_one-received}
use cudy_wr3600_openwrt.Sysport.Tx.{Tx, zeros, xmit}
use cudy_wr3600_openwrt.Sysport.Tx.Flight.{IsTx, XmitOutcome, xmit-XmitOutcome}
use cudy_wr3600_openwrt.Sysport.Poll.{Poll, napi_poll, poll_tick}
use cudy_wr3600_openwrt.Sysport.Poll.Work.{
  PollOutcome, period, quiet, napi_poll-PollOutcome, period-poll_tick,
}

abbrev plenty : Memory
plenty = record { grants = λ n. true; asked = 0; live = 0 }

abbrev config : Config
config = record {
  split = true;
  brcm_tag_port = pos 5;
  wan_port = 0;
  tag_fmt = b53;
  rx_marks = true;
  tx_marks = true;
  has_wan = true;
  tx_timeout = 20;
  dma_pa = 0x10000000;
}

-- A frame of 64 bytes with a tag of port 0.
abbrev header : List ℕ
header = zeros 12

abbrev tag : List ℕ
tag = 0 ∷ 0 ∷ 0 ∷ 0 ∷ []

abbrev payload : List ℕ
payload = zeros 48

abbrev slack : List ℕ
slack = 0xff ∷ []

abbrev hw : Hw
hw = record {
  p_idx = 1;
  desc = λ i. (0x10000800, 64 * 2 ^ 18);
  buf = λ i. header ++ (tag ++ (payload ++ slack));
}

abbrev one_frame : Rx
one_frame = record {
  hw = hw;
  c_idx = 0;
  lan_stats = zero_rx_stats;
  wan_stats = zero_rx_stats;
  seen_rx = false;
  rx_entered = false;
  rx_done_once = false;
  mem = plenty;
  received = [];
  marks = [];
}

abbrev idle : Tx
idle = record {
  busy = false;
  cidx_pre = 0;
  len = 0;
  start = 0;
  ndev = none;
  tx_seq = 0;
  buf = [];
  posted = [];
  lan_stopped = false;
  wan_stopped = false;
  lan_stats = zero_tx_stats;
  wan_stats = zero_tx_stats;
  seen_tx = false;
  marks = [];
  fault = false;
  freed = 0;
  cidx_at = λ n. n;
  cidx_reads = 0;
  jiffies_at = λ n. n;
  jiffies_reads = 0;
}

abbrev polled : Poll
polled = record {
  rx = one_frame;
  tx = idle;
  budget_hit = false;
  busy = true;
  completed = false;
  running = true;
  marks = [];
  scheduled = 0;
}

tagged_config : is_tagged config ≡ true
unfolding is_tagged
tagged_config = refl

idle-IsTx : IsTx config idle
idle-IsTx = ground arith

xmit-XmitOutcome_example : XmitOutcome config wan header idle (xmit config wan header true idle)
xmit-XmitOutcome_example = xmit-XmitOutcome config wan header true idle idle-IsTx

rx_one-Outcome_example : Outcome config one_frame (rx_one config one_frame)
rx_one-Outcome_example = rx_one-Outcome config one_frame

rx_one-received_example :
    (rx_one config one_frame).1.received
    ≡ (rx_role config (tag ++ (payload ++ slack)), header ++ payload) ∷ []
rx_one-received_example =
    rx_one-received config one_frame header tag payload slack tagged_config (omega arith)
      (omega arith) refl refl refl refl refl (omega arith) (omega arith)

rx_role-FromPort_example : (rx_role config tag ≡ wan) ↔ FromPort tag b53 0
rx_role-FromPort_example = rx_role-FromPort config tag refl refl (omega arith)

napi_poll-PollOutcome_example : PollOutcome 1 polled (napi_poll config quiet 1 polled)
napi_poll-PollOutcome_example = napi_poll-PollOutcome config quiet 1 polled

period-poll_tick_example :
    (0 < period (poll_tick config 20 0 polled).0) ↔ ((true ≡ false) ⊎ (0 < 0))
period-poll_tick_example = period-poll_tick config 20 0 polled refl
