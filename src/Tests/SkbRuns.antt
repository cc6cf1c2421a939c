-- ===== src/Tests/SkbRuns.antt =====
-- A new legacy packet of shim_skb.c and one edit of it.
use cudy_wr3600_openwrt.Prelude.{[], ◌∷◌, Memory, arith, true, ◌≡◌}
use cudy_wr3600_openwrt.Skb.{Packet}
use cudy_wr3600_openwrt.Skb.Room.{Refined, apply, do_put}
use cudy_wr3600_openwrt.Skb.Window.{apply-Refined}
use cudy_wr3600_openwrt.Skb.Heap.Reach.{
  do_alloc, do_clone, do_free, run, empty_heap, refs_to, run-refs_to,
}
use cudy_wr3600_openwrt.Skb.Create.{Layout, created, netdev_alloc}
use cudy_wr3600_openwrt.Skb.Create.Fresh.{Allocated, created-IsOwned, netdev_alloc-Allocated}

abbrev plenty : Memory
plenty = record { grants = λ n. true; asked = 0; live = 0 }

abbrev layout : Layout
layout = record {
  sizeof_sk_buff = 384;
  info_room = 192;
  sizeof_data = 64;
  info_low_n = 4;
  info_high_n = 8;
  ext_low_n = 4;
  ext_high_n = 4;
}

abbrev packet : Packet
packet = created layout 0x80000000 1664

apply-Refined_example : Refined 12 (do_put 100) packet (apply 12 (do_put 100) packet)
apply-Refined_example =
    apply-Refined 12 (do_put 100) packet (created-IsOwned 12 layout 0x80000000 1664 (omega arith))

netdev_alloc-Allocated_example :
    Allocated 12 64 1600 plenty (netdev_alloc 12 64 layout 0x80000000 1600 plenty)
netdev_alloc-Allocated_example = netdev_alloc-Allocated 12 64 layout 0x80000000 1600 plenty

-- A packet, its clone, and the frees of both.
run-refs_to_example :
    (run 12
        (do_alloc layout 0x80000000 1600 ∷ do_clone 0 ∷ do_free 0 ∷ do_free 1 ∷ [])
        (empty_heap plenty)).dataref
      0
    ≡ refs_to 0
        (run 12
          (do_alloc layout 0x80000000 1600 ∷ do_clone 0 ∷ do_free 0 ∷ do_free 1 ∷ [])
          (empty_heap plenty)).heads
run-refs_to_example =
    run-refs_to 12 (do_alloc layout 0x80000000 1600 ∷ do_clone 0 ∷ do_free 0 ∷ do_free 1 ∷ [])
      plenty 0 (omega arith)
