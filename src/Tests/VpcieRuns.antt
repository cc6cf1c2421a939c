-- ===== src/Tests/VpcieRuns.antt =====
-- The first radio of the board behind vpcie66.c.
use cudy_wr3600_openwrt.Prelude.{
  [], arith, etimedout, false, if◌then◌else◌, ltb, none, ok, refl, some, true, ◌*◌, ◌+◌, ◌/◌, ◌==◌,
  ◌∷◌, ◌≡◌,
}
use cudy_wr3600_openwrt.Vpcie.{Vdev}
use cudy_wr3600_openwrt.Vpcie.Build.{build_cfg}
use cudy_wr3600_openwrt.Vpcie.Probe.{virq, missing, Node, World, Host, probe}
use cudy_wr3600_openwrt.Vpcie.Caps.{walk_caps, walk_caps-build_cfg}
use cudy_wr3600_openwrt.Vpcie.Release.{IsReleased, Probed, probe-Probed}

abbrev radio : Vdev
radio = record {
  coreid = 1;
  devid = 0x6038;
  domain = 1;
  bus = 1;
  slot = 1;
  rev = 1;
  win_start = 0x98000000;
  win_size = 0x08000000;
  irq = λ i. 40 + i;
  nirq = 10;
  bar_size = λ i. if i == 0 then 0x08000000 else 0;
  cfg = λ b. 0;
}

walk_caps-build_cfg_example :
    walk_caps 6 ((build_cfg radio).cfg 0x34) (build_cfg radio).cfg
    ≡ (0x01, 0x48) ∷ (0x05, 0x58) ∷ (0x09, 0x68) ∷ (0x11, 0xa0) ∷ (0x10, 0xac) ∷ []
walk_caps-build_cfg_example = walk_caps-build_cfg radio (omega arith)

abbrev node : Node
node = record {
  coreid_prop = ok 1;
  devid_prop = ok 0x6038;
  domain_prop = some 1;
  revid_prop = none;
  window = ok (0x98000000, 0x08000000);
  irq_at = λ i. if ltb i 4 then virq (40 + i) else missing;
}

abbrev world : World
world = record {
  bridge_granted = true;
  node = node;
  powerup = true;
  power_up = λ coreid. some etimedout;
  host_probe = λ vh. none;
  get_slot = λ vh. some (record {
    vendor = 0x14e4;
    device = vh.devid;
    bar_start = vh.win_start / 16 * 16;
    bar_len = vh.win_size;
    dev_irq = vh.irq 1;
  });
}

abbrev idle : Host
idle = record {
  marks = [];
  bridge = false;
  windows = 0;
  root_bus = false;
  dev_refs = 0;
  drvdata = none;
}

idle-IsReleased : IsReleased idle
idle-IsReleased = record { bridge = refl; windows = refl; root_bus = refl; dev_refs = refl }

probe-Probed_example : Probed world (probe world radio idle)
probe-Probed_example = probe-Probed world radio idle idle-IsReleased
