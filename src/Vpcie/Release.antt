-- ===== src/Vpcie/Release.antt =====
-- What a probe and a removal of vpcie66.c leave behind.
use mathlib.Core.Path.{subst}
use cudy_wr3600_openwrt.Prelude.{
  ◌*◌, ◌/◌, Bool, enomem, if◌then◌else◌, eprobe_defer, Bool-cases, Errno, Option, inl, inr, ltb,
  none, not, refl, update, ◌%◌, ◌==◌, ◌||◌, ◌∙◌, Result, arith, err, false, ok, some, suc, true,
  zero, ℕ, ◌+◌, ◌<◌, ◌^◌, ◌≡◌, ◌≢◌, ◌≤◌,
}
use cudy_wr3600_openwrt.Vpcie.{Vdev}
use cudy_wr3600_openwrt.Vpcie.Build.{build_cfg}
use cudy_wr3600_openwrt.Vpcie.Probe.{
  Irq, virq, deferred, missing, Node, irq_max, or_default, collect_irqs, with_irqs, described,
  with_window, with_devid, with_coreid, parse_dt, Found, World, Host, mark, is_expected, verify,
  scan_bus, power_stage, probe_with, probe, remove,
}

-- Nothing is held: no bridge, no window, no root bus and no reference on a device.
pub record IsReleased (h : Host) : Type 0 where
  pub bridge : h.bridge ≡ false
  pub windows : h.windows ≡ 0
  pub root_bus : h.root_bus ≡ false
  pub dev_refs : h.dev_refs ≡ 0

-- What the PCI core found is the device with its window and the interrupt of its MAC.
pub record Agrees (vh : Vdev) (f : Found) : Type 0 where
  pub vendor : f.vendor ≡ 0x14e4
  pub device : f.device ≡ vh.devid
  pub bar_start : f.bar_start ≡ vh.win_start / 16 * 16
  pub bar_len : f.bar_len ≡ vh.win_size
  pub dev_irq : f.dev_irq ≡ vh.irq 1

-- The device that the probe set up passed the self-check, and the host is there.
pub record IsHosting (w : World) (vh : Vdev) (h : Host) : Type 0 where
  pub bridge : h.bridge ≡ true
  pub windows : h.windows ≡ 2
  pub root_bus : h.root_bus ≡ true
  pub dev_refs : h.dev_refs ≡ 0
  pub drvdata : h.drvdata ≡ some vh
  pub checked : (f : Found) × (w.get_slot vh ≡ some f) × Agrees vh f

-- A device that the device tree describes completely enough.
pub record IsReady (vh : Vdev) : Type 0 where
  pub slot : vh.slot < 16
  pub devid : vh.devid < 2 ^ 16
  pub rev : vh.rev < 2 ^ 8
  pub bus : vh.bus ≡ 1
  pub irqs : (1 < vh.nirq) × (vh.nirq ≤ irq_max) × (vh.irq 1 ≢ 0)

-- What the device tree says of a device: its numbers cut to their fields, with the core's number where
-- there is no domain or revision, its window, and its interrupts in order.
pub record IsDescribed (node : Node) (vh : Vdev) : Type 0 where
  pub core : (c : ℕ) × (node.coreid_prop ≡ ok c) × (vh.coreid ≡ c % 16) × (vh.slot ≡ c % 16)
  pub id : (d : ℕ) × (node.devid_prop ≡ ok d) × (vh.devid ≡ d % 2 ^ 16)
  pub domain : vh.domain ≡ or_default node.domain_prop vh.coreid
  pub revision : vh.rev ≡ or_default node.revid_prop vh.coreid % 2 ^ 8
  pub window : node.window ≡ ok (vh.win_start, vh.win_size)
  pub lines : (i : ℕ) → i < vh.nirq → node.irq_at i ≡ virq (vh.irq i)

-- The first `n` interrupts of the device tree.
abbrev Lines : (ℕ → Irq) → ℕ → (ℕ → ℕ) → Type 0
Lines irq_at n irq = (j : ℕ) → j < n → irq_at j ≡ virq (irq j)

abbrev pub Collected : (ℕ → Irq) → ℕ → Result (ℕ × (ℕ → ℕ)) → Type 0
Collected irq_at most (err e) = Unit
Collected irq_at most (ok (n, irq)) = (n ≤ most) × Lines irq_at n irq

Lines-update :
    (irq_at : ℕ → Irq) (i v : ℕ) (irq : ℕ → ℕ)
    → irq_at i ≡ virq v
    → Lines irq_at i irq
    → Lines irq_at (suc i) (update irq i v)
Lines-update irq_at i v irq e h j lt = elim (Bool-cases (i == j)) [
  | inl same ↦
      let is : i ≡ j = ground (arith, same) in rw same (subst (λ k. irq_at k ≡ virq v) is e)
  | inr other ↦ rw other (h j (ground (arith, lt, other)))
]

Collected-next :
    (irq_at : ℕ → Irq) (o : Irq) (i n : ℕ) (rest : (ℕ → ℕ) → Result (ℕ × (ℕ → ℕ))) (irq : ℕ → ℕ)
    → irq_at i ≡ o
    → Lines irq_at i irq
    → ((r : ℕ → ℕ) → Lines irq_at (suc i) r → Collected irq_at (suc i + n) (rest r))
    → Collected irq_at (i + suc n) (elim o [
      | virq v ↦ rest (update irq i v)
      | deferred ↦ err eprobe_defer
      | missing ↦ ok (i, irq)
    ])
Collected-next irq_at (virq v) i n rest irq e l h =
    let count : suc i + n ≡ i + suc n = omega arith in
    subst (λ m. Collected irq_at m (rest (update irq i v))) count
      (h (update irq i v) (Lines-update irq_at i v irq e l))
Collected-next irq_at deferred i n rest irq e l h = tt
Collected-next irq_at missing i n rest irq e l h = (omega arith, l)

collect_irqs-Collected :
    (irq_at : ℕ → Irq) (n i : ℕ) (irq : ℕ → ℕ)
    → Lines irq_at i irq
    → Collected irq_at (i + n) (collect_irqs irq_at n i irq)
unfolding collect_irqs
collect_irqs-Collected irq_at zero i irq l = (omega arith, l)
collect_irqs-Collected irq_at (suc n) i irq l =
    Collected-next irq_at (irq_at i) i n (collect_irqs irq_at n (suc i)) irq refl l
      (λ r m. collect_irqs-Collected irq_at n (suc i) r m)

abbrev pub Parsed : Node → Result Vdev → Type 0
Parsed node (err e) = Unit
Parsed node (ok vh) = IsReady vh × IsDescribed node vh

with_irqs-Parsed :
    (node : Node) (c d start size : ℕ) (zeroed : Vdev) (r : Result (ℕ × (ℕ → ℕ)))
    → node.coreid_prop ≡ ok c
    → node.devid_prop ≡ ok d
    → node.window ≡ ok (start, size)
    → Collected node.irq_at irq_max r
    → Parsed node (with_irqs (described node (c % 16) (d % 2 ^ 16) start size zeroed) r)
with_irqs-Parsed node c d start size zeroed (err e) hc hd hw k = tt
with_irqs-Parsed node c d start size zeroed (ok (n, irq)) hc hd hw k =
    elim (Bool-cases (not (ltb 1 n) || (irq 1 == 0))) [
      | inl e ↦ rw e tt
      | inr e ↦ rw e (
        record {
          slot = omega arith;
          devid = omega arith;
          rev = omega arith;
          bus = refl;
          irqs = (ground (arith, e), k.0, λ z. ground (arith, e, z));
        },
        record {
          core = (c, hc, refl, refl);
          id = (d, hd, refl);
          domain = refl;
          revision = refl;
          window = hw;
          lines = k.1;
        },
      )
    ]

with_window-Parsed :
    (node : Node) (c d : ℕ) (r : Result (ℕ × ℕ)) (zeroed : Vdev)
    → node.coreid_prop ≡ ok c
    → node.devid_prop ≡ ok d
    → node.window ≡ r
    → Parsed node (with_window node (c % 16) (d % 2 ^ 16) r zeroed)
with_window-Parsed node c d (err e) zeroed hc hd hw = tt
with_window-Parsed node c d (ok (start, size)) zeroed hc hd hw =
    with_irqs-Parsed node c d start size zeroed (collect_irqs node.irq_at irq_max 0 zeroed.irq) hc
      hd hw
      (collect_irqs-Collected node.irq_at irq_max 0 zeroed.irq (λ j lt. absurd (omega (arith, lt))))

with_devid-Parsed :
    (node : Node) (c : ℕ) (r : Result ℕ) (zeroed : Vdev)
    → node.coreid_prop ≡ ok c
    → node.devid_prop ≡ r
    → Parsed node (with_devid node (c % 16) r zeroed)
with_devid-Parsed node c (err e) zeroed hc hd = tt
with_devid-Parsed node c (ok d) zeroed hc hd =
    with_window-Parsed node c d node.window zeroed hc hd refl

with_coreid-Parsed :
    (node : Node) (r : Result ℕ) (zeroed : Vdev)
    → node.coreid_prop ≡ r
    → Parsed node (with_coreid node r zeroed)
with_coreid-Parsed node (err e) zeroed hc = tt
with_coreid-Parsed node (ok c) zeroed hc = with_devid-Parsed node c node.devid_prop zeroed hc refl

-- A device tree that is accepted gives the device that it describes, with a slot and numbers that fit
-- their fields, and from two to ten interrupts with that of the MAC among them.
pub parse_dt-Parsed : (node : Node) (vh : Vdev) → Parsed node (parse_dt node vh)
unfolding parse_dt
parse_dt-Parsed node vh = with_coreid-Parsed node node.coreid_prop vh refl

-- The configuration space is no part of the description.
build_cfg-IsDescribed :
    (node : Node) (vh : Vdev)
    → IsReady vh × IsDescribed node vh
    → IsReady (build_cfg vh) × IsDescribed node (build_cfg vh)
unfolding build_cfg
build_cfg-IsDescribed node vh (v, d) = (
  record { slot = v.slot; devid = v.devid; rev = v.rev; bus = v.bus; irqs = v.irqs },
  record {
    core = d.core;
    id = d.id;
    domain = d.domain;
    revision = d.revision;
    window = d.window;
    lines = d.lines;
  },
)

-- What a probe leaves: all of it with a device that was checked, or nothing.
abbrev pub Probed : World → Option Errno × Host → Type 0
Probed w (some e, h) = IsReleased h
Probed w (none, h) = (vh : Vdev) × IsReady vh × IsDescribed w.node vh × IsHosting w vh h

verify-Probed :
    (w : World) (vh : Vdev) (o : Option Found) (h : Host)
    → w.get_slot vh ≡ o
    → IsReady vh × IsDescribed w.node vh
    → (h.bridge ≡ true) × (h.windows ≡ 2) × (h.root_bus ≡ true) × (h.dev_refs ≡ 0)
    → Probed w (verify vh o h)
unfolding verify
verify-Probed w vh none h e d held = record {
  bridge = refl;
  windows = refl;
  root_bus = refl;
  dev_refs = held.3;
}
verify-Probed w vh (some f) h e d held = elim (Bool-cases (is_expected vh f)) [
  | inl x ↦ rw x (
    vh,
    d.0,
    d.1,
    record {
      bridge = held.0;
      windows = held.1;
      root_bus = held.2;
      dev_refs = omega (arith, held);
      drvdata = refl;
      checked = (
        f,
        e,
        record {
          vendor = ground (arith, x);
          device = ground (arith, x);
          bar_start = ground (arith, x);
          bar_len = ground (arith, x);
          dev_irq = ground (arith, x);
        },
      );
    },
  )
  | inr x ↦
      rw x
        (record { bridge = refl; windows = refl; root_bus = refl; dev_refs = omega (arith, held) })
]

scan_bus-Probed :
    (w : World) (vh : Vdev) (o : Option Errno) (h : Host)
    → IsReady vh × IsDescribed w.node vh
    → (h.bridge ≡ true) × (h.windows ≡ 2) × (h.root_bus ≡ false) × (h.dev_refs ≡ 0)
    → Probed w (scan_bus w vh o h)
unfolding scan_bus
scan_bus-Probed w vh (some e) h d held = record {
  bridge = refl;
  windows = refl;
  root_bus = held.2;
  dev_refs = held.3;
}
scan_bus-Probed w vh none h d held =
    verify-Probed w vh (w.get_slot vh) _ refl d (held.0, held.1, refl, held.3)

power_stage-held :
    (w : World) (vh : Vdev) (h : Host)
    → ((power_stage w vh h).bridge ≡ h.bridge)
      × ((power_stage w vh h).windows ≡ h.windows)
      × ((power_stage w vh h).root_bus ≡ h.root_bus)
      × ((power_stage w vh h).dev_refs ≡ h.dev_refs)
unfolding power_stage
power_stage-held w vh h = ground arith

probe_with-Probed :
    (w : World) (r : Result Vdev) (h : Host)
    → Parsed w.node r
    → (h.bridge ≡ true) × (h.windows ≡ 0) × (h.root_bus ≡ false) × (h.dev_refs ≡ 0)
    → Probed w (probe_with w r h)
unfolding probe_with
probe_with-Probed w (err e) h d held = record {
  bridge = refl;
  windows = held.1;
  root_bus = held.2;
  dev_refs = held.3;
}
probe_with-Probed w (ok vh) h d held =
    let p = power_stage-held w vh (mark 0xA1 h) in
    scan_bus-Probed w (build_cfg vh) (w.host_probe (build_cfg vh)) _
      (build_cfg-IsDescribed w.node vh d)
      (p.0 ∙ held.0, omega (arith, p, held), p.2 ∙ held.2, p.3 ∙ held.3)

probe_if-Probed :
    (b : Bool) (w : World) (r : Result Vdev) (h : Host)
    → Parsed w.node r
    → IsReleased h
    → Probed w (if b then probe_with w r (record h { bridge = true }) else (some enomem, h))
probe_if-Probed true w r h d v =
    probe_with-Probed w r (record h { bridge = true }) d (refl, v.windows, v.root_bus, v.dev_refs)
probe_if-Probed false w r h d v = v

-- From a host that holds nothing, a probe that fails, at whatever stage, holds nothing. One that succeeds holds the bridge, its two
-- windows and the root bus, for the device that the device tree describes: with its numbers, its window
-- and its interrupts, the one of the MAC among them; and what the PCI core found passed the comparison
-- with that device.
pub probe-Probed : (w : World) (vh : Vdev) (h : Host) → IsReleased h → Probed w (probe w vh h)
unfolding probe
probe-Probed w vh h v =
    let entered : IsReleased (mark 0xA0 h) = record {
      bridge = v.bridge;
      windows = v.windows;
      root_bus = v.root_bus;
      dev_refs = v.dev_refs;
    } in
    probe_if-Probed w.bridge_granted w (parse_dt w.node vh) (mark 0xA0 h)
      (parse_dt-Parsed w.node vh) entered

-- A removal gives back all that a probe that succeeded holds.
pub remove-IsHosting : {w : World} {vh : Vdev} (h : Host) → IsHosting w vh h → IsReleased (remove h)
unfolding remove
remove-IsHosting h v =
    rw v.drvdata (record { bridge = refl; windows = refl; root_bus = refl; dev_refs = v.dev_refs })
