-- ===== src/Tests/PortRuns.antt =====
-- The switch of sf2_6764.c and the open count of sysport6764.c, on registers that are all ones.
use cudy_wr3600_openwrt.Prelude.{[], false, negsuc, none, pos, refl, true}
use cudy_wr3600_openwrt.Sysport.{Config, wan, b53}
use cudy_wr3600_openwrt.Sysport.Switch.{Switch, SwitchParams}
use cudy_wr3600_openwrt.Sysport.Open.{Mac, open_ndev}
use cudy_wr3600_openwrt.Sysport.Open.Count.{IsMac, here, next, opens, reachable-IsMac}

abbrev config : Config
config = record {
  split = true;
  brcm_tag_port = pos 5;
  wan_port = 6;
  tag_fmt = b53;
  rx_marks = false;
  tx_marks = false;
  has_wan = true;
  tx_timeout = 20;
  dma_pa = 0x10000000;
}

abbrev params : SwitchParams
params = record { serdes_port = pos 5; p0_ovr = negsuc 0; wan_port = 6 }

abbrev reset_switch : Switch
reset_switch = record {
  traffic_ctrl = λ i. 0xff;
  vlan_ctrl = λ i. 0x1ff;
  sts_override = λ i. 0;
  saved = false;
  saved_port_ctrl = λ i. 0;
  saved_pbvlan = λ i. 0;
  ports_enabled = 0;
}

abbrev closed : Mac
closed = record {
  switch = reset_switch;
  rdma_on = false;
  tdma_on = false;
  rdma_status = λ n. 0;
  rdma_reads = 0;
  tdma_status = λ n. 3;
  tdma_reads = 0;
  pc_index = λ n. 0;
  pc_reads = 0;
  rx_hw = record { p_idx = 0; desc = λ i. (0, 0); buf = λ i. [] };
  rx_c_idx = 0;
  tx_busy = false;
  tx_ndev = none;
  running = false;
  napi = false;
  timer = false;
  open_count = 0;
  lan_carrier = false;
  wan_carrier = false;
  lan_queue = false;
  wan_queue = false;
  marks = [];
}

reachable-IsMac_example : IsMac (open_ndev params config wan closed).1
reachable-IsMac_example =
    reachable-IsMac {p = params} {c = config}
      (record {
        counted = refl;
        runs = refl;
        polls = refl;
        ticks = refl;
        receives = refl;
        sends = refl;
        lan_queued = refl;
        wan_queued = refl;
      })
      (next here (opens wan refl))
