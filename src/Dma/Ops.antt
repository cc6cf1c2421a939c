-- ===== src/Dma/Ops.antt =====
-- The operations of shim_dma.c's table, arm_dma_ops, over the native DMA API.
use cudy_wr3600_openwrt.Prelude.{
  Bool, List, if◌then◌else◌, ltb, not, ℕ, ◌&&◌, ◌-◌, ◌==◌, ◌^◌, ◌||◌, ◌∷◌,
}
use cudy_wr3600_openwrt.Dma.{
  Dma, Native, allocs, frees, maps, unmaps, syncs_cpu, syncs_device, put_device, dma419_device,
}
use cudy_wr3600_openwrt.Slots.{}
use cudy_wr3600_openwrt.Dma.Gfp.{GfpFlag, shim_gfp419}

-- The native API: its answers, given the calls so far with the present one first, and the masks of the
-- devices; 0 stands for a missing mask.
pub record Api : Type 0 where
  pub gfp_value : GfpFlag → ℕ
  pub alloc_answer : List Native → ℕ × ℕ
  pub map_answer : List Native → ℕ
  pub mapping_fails : ℕ → ℕ → Bool
  pub valid_direction : ℕ → Bool
  pub dma_mask : ℕ → ℕ
  pub coherent_mask : ℕ → ℕ

-- `DMA419_ERROR`
abbrev pub dma419_error : ℕ
dma419_error = 2 ^ 64 - 1

abbrev pub u32_max : ℕ
u32_max = 2 ^ 32 - 1

abbrev pub issue : Native → Dma → Dma
issue c d = record d { calls = c ∷ d.calls }

-- `dma419_args`
abbrev pub dma419_args : ℕ → ℕ → Bool
dma419_args addr attrs = not (ltb u32_max addr || not (attrs == 0))

abbrev pub allocated : Api → ℕ → Native → Dma → ℕ × ℕ × Dma
allocated a dev c d =
    let answer = a.alloc_answer (c ∷ d.calls) in
    (answer.0, if answer.0 == 0 then dma419_error else answer.1, put_device dev (issue c d))

-- `dma419_alloc`: the address, what `*handle` holds then, and the state; `handle` is whether that
-- pointer is not NULL.
unfoldable pub alloc : Api → ℕ → ℕ → Bool → ℕ → ℕ → Dma → ℕ × ℕ × Dma
alloc a old size handle gfp attrs d =
    let found = dma419_device old d in
    let dev = found.0 in
    if not (dev == 0) && handle && not (size == 0) && dma419_args 0 attrs
    then allocated a dev (allocs dev size (shim_gfp419 a.gfp_value gfp) attrs) found.1
    else (0, dma419_error, put_device dev found.1)

-- `dma419_free`
unfoldable pub free : ℕ → ℕ → ℕ → ℕ → ℕ → Dma → Dma
free old size cpu handle attrs d =
    let found = dma419_device old d in
    let dev = found.0 in
    put_device dev (
      if not (dev == 0) && dma419_args handle attrs
      then issue (frees dev size cpu handle attrs) found.1
      else found.1)

abbrev pub mapped : Api → ℕ → Native → Dma → ℕ × Dma
mapped a dev c d =
    let handle = a.map_answer (c ∷ d.calls) in
    (if not (a.mapping_fails dev handle) then handle else dma419_error, put_device dev (issue c d))

-- `dma419_map_page`
unfoldable pub map_page : Api → ℕ → ℕ → ℕ → ℕ → ℕ → ℕ → Dma → ℕ × Dma
map_page a old page offset size dir attrs d =
    let found = dma419_device old d in
    let dev = found.0 in
    if not (dev == 0)
      && not (page == 0)
      && not (size == 0)
      && a.valid_direction dir
      && dma419_args 0 attrs
    then mapped a dev (maps dev page offset size dir attrs) found.1
    else (dma419_error, put_device dev found.1)

-- `dma419_unmap_page`
unfoldable pub unmap_page : Api → ℕ → ℕ → ℕ → ℕ → ℕ → Dma → Dma
unmap_page a old handle size dir attrs d =
    let found = dma419_device old d in
    let dev = found.0 in
    put_device dev (
      if not (dev == 0) && a.valid_direction dir && dma419_args handle attrs
      then issue (unmaps dev handle size dir attrs) found.1
      else found.1)

-- `dma419_sync_cpu`
unfoldable pub sync_cpu : Api → ℕ → ℕ → ℕ → ℕ → Dma → Dma
sync_cpu a old handle size dir d =
    let found = dma419_device old d in
    let dev = found.0 in
    put_device dev (
      if not (dev == 0) && a.valid_direction dir && dma419_args handle 0
      then issue (syncs_cpu dev handle size dir) found.1
      else found.1)

-- `dma419_sync_device`
unfoldable pub sync_device : Api → ℕ → ℕ → ℕ → ℕ → Dma → Dma
sync_device a old handle size dir d =
    let found = dma419_device old d in
    let dev = found.0 in
    put_device dev (
      if not (dev == 0) && a.valid_direction dir && dma419_args handle 0
      then issue (syncs_device dev handle size dir) found.1
      else found.1)

-- `dma419_mapping_error`, where the native DMA_MAPPING_ERROR is 32 ones.
unfoldable pub mapping_error : ℕ → ℕ → Bool
mapping_error old addr = not (ltb addr u32_max)

-- `dma419_supported`
unfoldable pub supported : Api → ℕ → ℕ → Dma → Bool × Dma
supported a old mask d =
    let found = dma419_device old d in
    let dev = found.0 in
    (
      not (dev == 0)
          && not (a.dma_mask dev == 0)
          && (not (ltb mask (a.dma_mask dev)) && not (ltb mask (a.coherent_mask dev))),
      put_device dev found.1,
    )
