-- ===== src/Dma/Table.antt =====
-- The table arm_dma_ops of shim_dma.c: what each of its operations does to the references and asks of
-- the native API.
use cudy_wr3600_openwrt.Prelude.{
  List, false, if◌then◌else◌, inr, not, ◌&&◌, ◌==◌, Bool, arith, inl, refl, true, ℕ, ◌∷◌, ◌≡◌, ◌≢◌,
  ◌≤◌, ◌⊎◌,
}
use cudy_wr3600_openwrt.Dma.{
  Dma, Native, allocs, frees, maps, unmaps, syncs_cpu, syncs_device, dma419_device,
}
use cudy_wr3600_openwrt.Slots.{value_of}
use cudy_wr3600_openwrt.Dma.Gfp.{shim_gfp419}
use cudy_wr3600_openwrt.Dma.Ops.{
  Api, alloc, free, map_page, unmap_page, sync_cpu, sync_device, supported, u32_max, dma419_args,
}

-- A call through the table, with the arguments after the device.
pub data Op : Type 0 where
  alloc_op : (size : ℕ) (handle : Bool) (gfp attrs : ℕ) → Op
  free_op : (size cpu handle attrs : ℕ) → Op
  map_op : (page offset size dir attrs : ℕ) → Op
  unmap_op : (handle size dir attrs : ℕ) → Op
  sync_cpu_op : (handle size dir : ℕ) → Op
  sync_device_op : (handle size dir : ℕ) → Op
  mapping_error_op : (addr : ℕ) → Op
  supported_op : (mask : ℕ) → Op

-- The state after a call through the table.
pub perform : Api → ℕ → Op → Dma → Dma
perform a old (alloc_op size handle gfp attrs) d = (alloc a old size handle gfp attrs d).2
perform a old (free_op size cpu handle attrs) d = free old size cpu handle attrs d
perform a old (map_op page offset size dir attrs) d =
    (map_page a old page offset size dir attrs d).1
perform a old (unmap_op handle size dir attrs) d = unmap_page a old handle size dir attrs d
perform a old (sync_cpu_op handle size dir) d = sync_cpu a old handle size dir d
perform a old (sync_device_op handle size dir) d = sync_device a old handle size dir d
perform a old (mapping_error_op addr) d = d
perform a old (supported_op mask) d = (supported a old mask d).1

-- The bindings are the same, and every device has as many references.
pub record Kept (d t : Dma) : Type 0 where
  pub slots : t.slots ≡ d.slots
  pub refs : (n : ℕ) → t.refs n ≡ d.refs n

-- A native call that passes the checks of the shim.
abbrev pub IsChecked : Api → Native → Type 0
IsChecked a (allocs dev size gfp attrs) = (dev ≢ 0) × (size ≢ 0) × (attrs ≡ 0)
IsChecked a (frees dev size cpu handle attrs) = (dev ≢ 0) × (handle ≤ u32_max) × (attrs ≡ 0)
IsChecked a (maps dev page offset size dir attrs) =
    (dev ≢ 0) × (page ≢ 0) × (size ≢ 0) × (a.valid_direction dir ≡ true) × (attrs ≡ 0)
IsChecked a (unmaps dev handle size dir attrs) =
    (dev ≢ 0) × (handle ≤ u32_max) × (a.valid_direction dir ≡ true) × (attrs ≡ 0)
IsChecked a (syncs_cpu dev handle size dir) =
    (dev ≢ 0) × (handle ≤ u32_max) × (a.valid_direction dir ≡ true)
IsChecked a (syncs_device dev handle size dir) =
    (dev ≢ 0) × (handle ≤ u32_max) × (a.valid_direction dir ≡ true)

abbrev pub device_of : Native → ℕ
device_of (allocs dev size gfp attrs) = dev
device_of (frees dev size cpu handle attrs) = dev
device_of (maps dev page offset size dir attrs) = dev
device_of (unmaps dev handle size dir attrs) = dev
device_of (syncs_cpu dev handle size dir) = dev
device_of (syncs_device dev handle size dir) = dev

-- No native call was made, or one on the device that passes the checks.
abbrev pub Issued : Api → ℕ → List Native → List Native → Type 0
Issued a dev before after =
    (after ≡ before) ⊎ ((c : Native) × (after ≡ c ∷ before) × IsChecked a c × (device_of c ≡ dev))

pub perform-Kept : (a : Api) (old : ℕ) (op : Op) (d : Dma) → Kept d (perform a old op d)
unfolding perform dma419_device alloc free map_page unmap_page sync_cpu sync_device supported
perform-Kept a old (alloc_op size handle gfp attrs) d = record {
  slots = ground arith;
  refs = λ n. ground arith;
}
perform-Kept a old (free_op size cpu handle attrs) d = record {
  slots = ground arith;
  refs = λ n. ground arith;
}
perform-Kept a old (map_op page offset size dir attrs) d = record {
  slots = ground arith;
  refs = λ n. ground arith;
}
perform-Kept a old (unmap_op handle size dir attrs) d = record {
  slots = ground arith;
  refs = λ n. ground arith;
}
perform-Kept a old (sync_cpu_op handle size dir) d = record {
  slots = ground arith;
  refs = λ n. ground arith;
}
perform-Kept a old (sync_device_op handle size dir) d = record {
  slots = ground arith;
  refs = λ n. ground arith;
}
perform-Kept a old (mapping_error_op addr) d = record { slots = refl; refs = λ n. refl }
perform-Kept a old (supported_op mask) d = record { slots = ground arith; refs = λ n. ground arith }

Issued-if :
    {dev : ℕ} {before after : List Native} (b : Bool) (a : Api) (c : Native)
    → after ≡ (if b then c ∷ before else before)
    → (b ≡ true → IsChecked a c)
    → device_of c ≡ dev
    → Issued a dev before after
Issued-if true a c log checked dev = inr (c, log, checked refl, dev)
Issued-if false a c log checked dev = inl log

-- Every operation of the table makes at most one native call: on the device that its key is bound to,
-- with no attributes, a direction that the native API knows, an address of 32 bits, and a size and a
-- page where it takes them.
pub perform-Issued :
    (a : Api) (old : ℕ) (op : Op) (d : Dma)
    → Issued a (value_of old d.slots) d.calls (perform a old op d).calls
unfolding perform dma419_device alloc free map_page unmap_page sync_cpu sync_device supported
perform-Issued a old (alloc_op size handle gfp attrs) d =
    Issued-if (not (value_of old d.slots == 0) && handle && not (size == 0) && dma419_args 0 attrs)
      a (allocs (value_of old d.slots) size (shim_gfp419 a.gfp_value gfp) attrs) (ground arith)
      (λ e. ground (arith, e)) refl
perform-Issued a old (free_op size cpu handle attrs) d =
    Issued-if (not (value_of old d.slots == 0) && dma419_args handle attrs) a
      (frees (value_of old d.slots) size cpu handle attrs) (ground arith) (λ e. ground (arith, e))
      refl
perform-Issued a old (map_op page offset size dir attrs) d =
    Issued-if
      (not (value_of old d.slots == 0)
        && not (page == 0)
        && not (size == 0)
        && a.valid_direction dir
        && dma419_args 0 attrs)
      a (maps (value_of old d.slots) page offset size dir attrs) (ground arith)
      (λ e. ground (arith, e)) refl
perform-Issued a old (unmap_op handle size dir attrs) d =
    Issued-if (not (value_of old d.slots == 0) && a.valid_direction dir && dma419_args handle attrs)
      a (unmaps (value_of old d.slots) handle size dir attrs) (ground arith)
      (λ e. ground (arith, e)) refl
perform-Issued a old (sync_cpu_op handle size dir) d =
    Issued-if (not (value_of old d.slots == 0) && a.valid_direction dir && dma419_args handle 0) a
      (syncs_cpu (value_of old d.slots) handle size dir) (ground arith) (λ e. ground (arith, e))
      refl
perform-Issued a old (sync_device_op handle size dir) d =
    Issued-if (not (value_of old d.slots == 0) && a.valid_direction dir && dma419_args handle 0) a
      (syncs_device (value_of old d.slots) handle size dir) (ground arith) (λ e. ground (arith, e))
      refl
perform-Issued a old (mapping_error_op addr) d = inl refl
perform-Issued a old (supported_op mask) d = inl (ground arith)
