-- ===== src/Vpcie/Probe.antt =====
-- The device tree, the probe and the removal of vpcie66.c.
use cudy_wr3600_openwrt.Prelude.{
  eprobe_defer, Bool, Errno, List, Option, Result, enodev, enomem, err, false, if◌then◌else◌, ltb,
  negsuc, none, not, ok, pos, some, suc, true, update, zero, ℕ, ℤ, ◌%◌, ◌&&◌, ◌*◌, ◌+◌, ◌-◌, ◌/◌,
  ◌==◌, ◌^◌, ◌||◌, ◌∷◌,
}
use cudy_wr3600_openwrt.Vpcie.{Vdev}
use cudy_wr3600_openwrt.Vpcie.Build.{build_cfg}

-- The answer of `of_irq_get`: an interrupt, -EPROBE_DEFER, or another value that is not positive.
pub data Irq : Type 0 where
  virq : ℕ → Irq
  deferred missing : Irq

-- The node of the device tree, as the kernel's helpers read it. `err` is a property that cannot be
-- read.
pub record Node : Type 0 where
  pub coreid_prop : Result ℕ
  pub devid_prop : Result ℕ
  pub domain_prop : Option ℕ
  pub revid_prop : Option ℕ
  pub window : Result (ℕ × ℕ)
  pub irq_at : ℕ → Irq

-- `VPCIE66_IRQ_MAX`
abbrev pub irq_max : ℕ
irq_max = 10

-- The loop over the interrupts, `n` of them from number `i` on, with those found so far.
unfoldable pub collect_irqs : (ℕ → Irq) → ℕ → ℕ → (ℕ → ℕ) → Result (ℕ × (ℕ → ℕ))
collect_irqs irq_at zero i irq = ok (i, irq)
collect_irqs irq_at (suc n) i irq = elim (irq_at i) [
  | virq v ↦ collect_irqs irq_at n (suc i) (update irq i v)
  | deferred ↦ err eprobe_defer
  | missing ↦ ok (i, irq)
]

abbrev pub or_default : Option ℕ → ℕ → ℕ
or_default none d = d
or_default (some v) d = v

abbrev pub with_irqs : Vdev → Result (ℕ × (ℕ → ℕ)) → Result Vdev
with_irqs vh (err e) = err e
with_irqs vh (ok (n, irq)) =
    if not (ltb 1 n) || (irq 1 == 0) then err enodev else ok (record vh { nirq = n; irq = irq })

-- The fields that are read before the interrupts.
abbrev pub described : Node → ℕ → ℕ → ℕ → ℕ → Vdev → Vdev
described node coreid devid start size vh = record vh {
  coreid = coreid;
  slot = coreid;
  devid = devid;
  domain = or_default node.domain_prop coreid;
  bus = 1;
  rev = or_default node.revid_prop coreid % 2 ^ 8;
  win_start = start;
  win_size = size;
  bar_size = update vh.bar_size 0 (size % 2 ^ 32);
}

abbrev pub with_window : Node → ℕ → ℕ → Result (ℕ × ℕ) → Vdev → Result Vdev
with_window node coreid devid (err e) vh = err e
with_window node coreid devid (ok (start, size)) vh =
    with_irqs (described node coreid devid start size vh)
      (collect_irqs node.irq_at irq_max 0 vh.irq)

abbrev pub with_devid : Node → ℕ → Result ℕ → Vdev → Result Vdev
with_devid node coreid (err e) vh = err e
with_devid node coreid (ok v) vh = with_window node coreid (v % 2 ^ 16) node.window vh

abbrev pub with_coreid : Node → Result ℕ → Vdev → Result Vdev
with_coreid node (err e) vh = err e
with_coreid node (ok v) vh = with_devid node (v % 16) node.devid_prop vh

-- `vpcie66_parse_dt`
unfoldable pub parse_dt : Node → Vdev → Result Vdev
parse_dt node vh = with_coreid node node.coreid_prop vh

-- `vpcie66_map_irq`
unfoldable pub map_irq : Vdev → ℤ
map_irq vh = if ltb 0 (vh.irq 1) then pos (vh.irq 1) else negsuc 0

-- What the PCI core knows of the device after its scan.
pub record Found : Type 0 where
  pub vendor : ℕ
  pub device : ℕ
  pub bar_start : ℕ
  pub bar_len : ℕ
  pub dev_irq : ℕ

-- What is outside the module: the allocation of the bridge, the power controller, and the PCI core's
-- scan, which is given the device's configuration space.
pub record World : Type 0 where
  pub bridge_granted : Bool
  pub node : Node
  pub powerup : Bool
  pub power_up : ℕ → Option Errno
  pub host_probe : Vdev → Option Errno
  pub get_slot : Vdev → Option Found

-- The stages that were marked, newest first, and what is held: the bridge, the windows in its list,
-- the root bus, references on the device that was found, and the driver data.
pub record Host : Type 0 where
  pub marks : List ℕ
  pub bridge : Bool
  pub windows : ℕ
  pub root_bus : Bool
  pub dev_refs : ℕ
  pub drvdata : Option Vdev

abbrev pub mark : ℕ → Host → Host
mark m h = record h { marks = m ∷ h.marks }

abbrev pub err_free : Errno → Host → Option Errno × Host
err_free e h = (some e, record h { bridge = false })

abbrev pub err_windows : Errno → Host → Option Errno × Host
err_windows e h = err_free e (record h { windows = 0 })

abbrev pub err_remove : Errno → Host → Option Errno × Host
err_remove e h = err_windows e (record h { root_bus = false })

-- The comparison of the device with what the module told the PCI core.
abbrev pub is_expected : Vdev → Found → Bool
is_expected vh f =
    (f.vendor == 0x14e4)
    && (f.device == vh.devid)
    && (f.bar_start == vh.win_start / 16 * 16)
    && (f.bar_len == vh.win_size)
    && (f.dev_irq == vh.irq 1)

-- From the self-check on.
unfoldable pub verify : Vdev → Option Found → Host → Option Errno × Host
verify vh none h = err_remove enodev (mark 0xAF h)
verify vh (some f) h =
    let held = record h { dev_refs = h.dev_refs + 1 } in
    let put = record held { dev_refs = held.dev_refs - 1 } in
    if is_expected vh f
    then (none, mark 0xA7 (record (mark 0xA6 put) { drvdata = some vh }))
    else err_remove enodev (mark 0xAF put)

unfoldable pub scan_bus : World → Vdev → Option Errno → Host → Option Errno × Host
scan_bus w vh (some e) h = err_windows e (mark 0xAF h)
scan_bus w vh none h = verify vh (w.get_slot vh) (mark 0xA5 (record h { root_bus = true }))

-- The power-up, whose failure only is a warning.
unfoldable pub power_stage : World → Vdev → Host → Host
power_stage w vh h =
    if w.powerup
    then elim (w.power_up vh.coreid) [
      | some e ↦ mark 0xAE (mark 0xA2 h)
      | none ↦ mark 0xA3 (mark 0xA2 h)
    ]
    else h

unfoldable pub probe_with : World → Result Vdev → Host → Option Errno × Host
probe_with w (err e) h = err_free e (mark 0xAF h)
probe_with w (ok vh) h =
    let built = build_cfg vh in
    let ready = power_stage w vh (mark 0xA1 h) in
    scan_bus w built (w.host_probe built) (mark 0xA4 (record ready { windows = ready.windows + 2 }))

-- `vpcie66_probe`, where `zeroed` is the device's memory in the new bridge.
unfoldable pub probe : World → Vdev → Host → Option Errno × Host
probe w zeroed h =
    let entered = mark 0xA0 h in
    if w.bridge_granted
    then probe_with w (parse_dt w.node zeroed) (record entered { bridge = true })
    else (some enomem, entered)

-- `vpcie66_remove`
unfoldable pub remove : Host → Host
remove h = elim h.drvdata [
  | none ↦ h
  | some vh ↦ record h { root_bus = false; windows = 0; bridge = false }
]
