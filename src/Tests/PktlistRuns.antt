-- ===== src/Tests/PktlistRuns.antt =====
-- A pktlist context in wl_compat.c that is made and released.
use cudy_wr3600_openwrt.Prelude.{[], arith, refl, some, ◌%◌, ◌*◌, ◌/◌, ◌^◌, ◌∷◌, ◌≡◌}
use cudy_wr3600_openwrt.Pktlist.Context.{
  Args, Allocs, Pktlists, context_init, context_init_with, encode,
}
use cudy_wr3600_openwrt.Pktlist.Session.{
  here, next, inits, Reach, no_pktlists, IsTracked, reachable-IsTracked,
}
use cudy_wr3600_openwrt.Pktlist.Ring.{IsFilled, fill_context-IsFilled, encode_lem}
use cudy_wr3600_openwrt.Pktlist.Context.{fill_context, prio_max, dest_max, instance_node}

abbrev args : Args
args = record {
  peer = 0;
  xfer_fn = 5;
  keymap_fn = 6;
  driver = 7;
  driver_name = some (119 ∷ 108 ∷ []);
  unit = 1;
}

abbrev answers : Allocs
answers = record { ctx = 100; table = 200; track = 300 }

abbrev made : Pktlists
made = (context_init args answers no_pktlists).1

made-Reach : Reach no_pktlists made
made-Reach = next here (inits args answers (λ h. refl, λ h. refl, λ h. refl))

-- A second context for which the third allocation fails.
abbrev refused : Pktlists
refused = (context_init args (record { ctx = 101; table = 201; track = 0 }) made).1

refused-Reach : Reach no_pktlists refused
unfolding context_init context_init_with
refused-Reach = next made-Reach (
    inits args (record { ctx = 101; table = 201; track = 0 })
      (λ h. refl, λ h. refl, λ h. ground (arith, h)))

reachable-IsTracked_example : IsTracked refused
reachable-IsTracked_example = reachable-IsTracked refused-Reach

fill_context-IsFilled_example :
    IsFilled (prio_max * dest_max) prio_max (fill_context args (119 ∷ []) 200)
    × ((fill_context args (119 ∷ []) 200).nodes.next_p instance_node ≡ instance_node)
    × ((fill_context args (119 ∷ []) 200).nodes.prev_p instance_node ≡ instance_node)
fill_context-IsFilled_example = fill_context-IsFilled args (119 ∷ []) 200

encode_lem_example :
    (encode 3 21 % 2 ^ 12 ≡ 21) × (encode 3 21 / 2 ^ 12 ≡ 3) × (encode 3 21 % 2 ^ 4 ≡ 5)
encode_lem_example = encode_lem 3 21 (omega arith) (omega arith)
