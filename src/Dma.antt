-- ===== src/Dma.antt =====
-- The registry of legacy DMA devices of bsp-6.6/compat/shim_dma.c: eight slots that bind the opaque
-- keys of the binary modules to native devices.
pub mod Gfp
pub mod Ops
pub mod Scan
pub mod Registry
pub mod Table
pub mod Handles
pub mod Exit
pub mod Flags
pub mod Session
use cudy_wr3600_openwrt.Slots.{Slot, vacant, value_of, take_out, slot_key}
use cudy_wr3600_openwrt.Prelude.{
  eexist, Bool, Errno, List, Option, Result, [], einval, enospc, err, get_elem?, if◌then◌else◌,
  none, not, ok, set, some, suc, true, update, zero, ℕ, ◌&&◌, ◌+◌, ◌-◌, ◌==◌, ◌^◌, ◌||◌, ◌∷◌,
}

-- A call of the native DMA API, with its arguments.
pub data Native : Type 0 where
  allocs : (dev size gfp attrs : ℕ) → Native
  frees : (dev size cpu handle attrs : ℕ) → Native
  maps : (dev page offset size dir attrs : ℕ) → Native
  unmaps : (dev handle size dir attrs : ℕ) → Native
  syncs_cpu : (dev handle size dir : ℕ) → Native
  syncs_device : (dev handle size dir : ℕ) → Native

-- Pointers are numbers and NULL is 0. `refs` counts the references that the calls of get_device took
-- on each device and put_device did not give back. `calls` is the native DMA calls, newest first;
-- `has_ops` and `old_mask` are the two words of a vendor device that the MLO setup writes.
pub record Dma : Type 0 where
  pub slots : List Slot
  pub refs : ℕ → ℕ
  pub mlo_device : ℕ
  pub mlo_key : ℕ
  pub has_ops : ℕ → Bool
  pub old_mask : ℕ → ℕ
  pub calls : List Native

-- `DMA419_SLOTS`
abbrev pub dma419_slots : ℕ
dma419_slots = 8

-- `get_device` and `put_device`, which do nothing on NULL.
abbrev pub get_device : ℕ → Dma → Dma
get_device dev d = record d {
  refs = if dev == 0 then d.refs else update d.refs dev (d.refs dev + 1);
}

abbrev pub put_device : ℕ → Dma → Dma
put_device dev d = record d {
  refs = if dev == 0 then d.refs else update d.refs dev (d.refs dev - 1);
}

-- The loop of `shim_dma_bind` from slot `i` on, with the free slot that it has seen.
unfoldable pub scan : ℕ → ℕ → Option ℕ → List Slot → Result (Option ℕ)
scan old i slot [] = ok slot
scan old i slot (x ∷ xs) =
    let seen : Option ℕ = elim slot [
      | some k ↦ some k
      | none ↦ if x.key == 0 then some i else none
    ] in
    let rest = scan old (suc i) seen xs in if x.key == old then err eexist else rest

abbrev pub bind_at : ℕ → ℕ → Dma → Result (Option ℕ) → Option Errno × Dma
bind_at old native d (err e) = (some e, d)
bind_at old native d (ok none) = (some enospc, d)
bind_at old native d (ok (some i)) =
    let t = get_device native d in
    (none, record t { slots = set t.slots i (record { key = old; value = native }) })

-- `shim_dma_bind`
unfoldable pub bind : ℕ → ℕ → Dma → Option Errno × Dma
bind old native d =
    if (old == 0) || (native == 0)
    then (some einval, d)
    else bind_at old native d (scan old 0 none d.slots)

-- `shim_dma_unbind`
unfoldable pub unbind : ℕ → Dma → Dma
unbind old d = let out = take_out old d.slots in put_device out.0 (record d { slots = out.1 })

-- `dma419_device`, and `shim_dma_get_device`: the device and a reference on it.
unfoldable pub dma419_device : ℕ → Dma → ℕ × Dma
dma419_device old d = let dev = value_of old d.slots in (dev, get_device dev d)

-- `bcm419_arch_setup_dma_ops`; `iommu` is whether an IOMMU is given.
unfoldable pub arch_setup : ℕ → ℕ → ℕ → Bool → Bool → Dma → Dma
arch_setup old base size iommu coherent d =
    let bound = bind old d.mlo_device d in
    if (old == 0)
      || not (base == 0)
      || not (size == 0)
      || iommu
      || not coherent
      || not (d.mlo_key == 0)
    then d
    else elim bound.0 as (λ x. Dma) [
      | some e ↦ bound.1
      | none ↦ record bound.1 {
        mlo_key = old;
        has_ops = update bound.1.has_ops old true;
        old_mask = update bound.1.old_mask old (2 ^ 32 - 1);
      }
    ]

-- `bcm419_hnd_kfree`, up to the kfree itself.
unfoldable pub hnd_kfree : ℕ → Dma → Dma
hnd_kfree ptr d =
    if not (ptr == 0) && (ptr == d.mlo_key) then unbind ptr (record d { mlo_key = 0 }) else d

-- The loop of `shim_dma_exit` over the `n` slots from `i` on.
unfoldable pub unbind_slots : ℕ → ℕ → Dma → Dma
unbind_slots zero i d = d
unbind_slots (suc n) i d = unbind_slots n (suc i) (unbind (slot_key (get_elem? d.slots i)) d)

-- `shim_dma_exit`, up to the unregistration of the root device.
unfoldable pub exit : Dma → Dma
exit d = record (unbind_slots dma419_slots 0 d) { mlo_key = 0 }
