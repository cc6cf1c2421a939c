-- ===== src/Dma/Gfp.antt =====
-- The translation of allocation flags in bsp-6.6/compat/shim_gfp.h.
use cudy_wr3600_openwrt.Prelude.Masks.{bit_at}
use Prim.Native.Nat.{bit_or}
use cudy_wr3600_openwrt.Prelude.{List, [], if◌then◌else◌, ℕ, ◌%◌, ◌==◌, ◌^◌, ◌∷◌}

pub data GfpFlag : Type 0 where
  write nowarn retry_mayfail nofail noretry memalloc comp zero_page nomemalloc hardwall thisnode
        high account direct_reclaim kswapd_reclaim nolockdep :
      GfpFlag

-- The MAP lines: the number of a vendor bit, and the native flag it becomes.
abbrev pub gfp_table : List (ℕ × GfpFlag)
gfp_table =
    (8, write)
    ∷ (9, nowarn)
    ∷ (10, retry_mayfail)
    ∷ (11, nofail)
    ∷ (12, noretry)
    ∷ (13, memalloc)
    ∷ (14, comp)
    ∷ (15, zero_page)
    ∷ (16, nomemalloc)
    ∷ (17, hardwall)
    ∷ (18, thisnode)
    ∷ (19, high)
    ∷ (20, account)
    ∷ (21, direct_reclaim)
    ∷ (22, kswapd_reclaim)
    ∷ (23, nolockdep)
    ∷ []

-- The MAP lines in turn, where `value` has the running kernel's flags.
unfoldable pub map_flags : (GfpFlag → ℕ) → ℕ → ℕ → List (ℕ × GfpFlag) → ℕ
map_flags value old flags [] = flags
map_flags value old flags ((bit, flag) ∷ rest) =
    map_flags value old (if bit_at bit old == 0 then flags else bit_or flags (value flag)) rest

-- `shim_gfp419`
unfoldable pub shim_gfp419 : (GfpFlag → ℕ) → ℕ → ℕ
shim_gfp419 value old = map_flags value old (old % 2 ^ 8) gfp_table
