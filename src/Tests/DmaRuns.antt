-- ===== src/Tests/DmaRuns.antt =====
-- The binding of a PCI device in shim_dma.c, a buffer and a mapping on it, and the exit.
use cudy_wr3600_openwrt.Prelude.{ltb, not, refl, true, ℕ, ◌^◌, ◌≡◌, ◌≢◌}
use cudy_wr3600_openwrt.Slots.{value_of}
use cudy_wr3600_openwrt.Dma.{Dma, bind, unbind, exit}
use cudy_wr3600_openwrt.Dma.Ops.{Api, map_page, u32_max}
use cudy_wr3600_openwrt.Dma.Registry.{IsDma, bind-IsDma, Bound, bind-Bound}
use cudy_wr3600_openwrt.Dma.Table.{alloc_op, perform, Issued, perform-Issued}
use cudy_wr3600_openwrt.Dma.Handles.{Mapped, map_page-Mapped}
use cudy_wr3600_openwrt.Dma.Exit.{exit_lem}
use cudy_wr3600_openwrt.Dma.Flags.{vendor_bit}
use cudy_wr3600_openwrt.Dma.Session.{
  here, next, binds, performs, unbinds, AreChecked, no_refs, fresh, fresh-IsDma, reachable-IsDma,
}

-- A native API with an IOMMU-less bus: buffers at 0x8000, mappings at 0x4000.
abbrev api : Api
api = record {
  gfp_value = λ f. 2 ^ vendor_bit f;
  alloc_answer = λ cs. (0x8000, 0x8000);
  map_answer = λ cs. 0x4000;
  mapping_fails = λ dev handle. not (ltb handle u32_max);
  valid_direction = λ dir. ltb dir 3;
  dma_mask = λ dev. u32_max;
  coherent_mask = λ dev. u32_max;
}

-- The key 100 bound to the device 7.
abbrev bound : Dma
bound = (bind 100 7 (fresh 1)).1

bound-IsDma : IsDma no_refs bound
bound-IsDma = bind-IsDma 100 7 (fresh 1) (fresh-IsDma 1)

bind-Bound_example : Bound 100 8 bound (bind 100 8 bound)
bind-Bound_example = bind-Bound 100 8 bound bound-IsDma.registry

perform-Issued_example :
    Issued api
      (value_of 100 bound.slots)
      bound.calls
      (perform api 100 (alloc_op 256 true 0 0) bound).calls
perform-Issued_example = perform-Issued api 100 (alloc_op 256 true 0 0) bound

map_page-Mapped_example : Mapped api 100 5 0 256 0 bound (map_page api 100 5 0 256 0 0 bound)
map_page-Mapped_example = map_page-Mapped api 100 5 0 256 0 bound (λ dev handle. refl)

exit_lem_example :
    ((k : ℕ) → value_of k (exit bound).slots ≡ 0)
    × ((dev : ℕ) → dev ≢ 0 → (exit bound).refs dev ≡ no_refs dev)
exit_lem_example = exit_lem bound bound-IsDma

-- A bind, an allocation, and an unbind.
reachable-IsDma_example :
    IsDma no_refs (unbind 100 (perform api 100 (alloc_op 256 true 0 0) bound))
    × AreChecked api (unbind 100 (perform api 100 (alloc_op 256 true 0 0) bound))
reachable-IsDma_example =
    reachable-IsDma 1
      (next (next (next here (binds 100 7)) (performs 100 (alloc_op 256 true 0 0))) (unbinds 100))
