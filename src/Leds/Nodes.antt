-- ===== src/Leds/Nodes.antt =====
-- The whole of `bca_cled_add_led` in leds-bca-cled.c, for a node of the device tree.
use cudy_wr3600_openwrt.Prelude.{
  Errno, Option, einval, false, if◌then◌else◌, none, some, true, ℕ, ◌%◌, ◌<◌, ◌==◌, ◌^◌, ◌≡◌, ◌≤◌,
  ◌⊎◌,
}
use cudy_wr3600_openwrt.Leds.{Cled, Node}
use cudy_wr3600_openwrt.Leds.Lights.{fed, Driven}

-- The output `out` is fed with a LED number; the other outputs and registers are as before.
pub record IsRouted (out led_num : ℕ) (c t : Cled) : Type 0 where
  pub feeds : (o : ℕ) → o ≤ 31 → fed o t ≡ (if o == out then led_num % 2 ^ 6 else fed o c)
  pub nleds : t.nleds ≡ c.nleds
  pub hw_en : t.hw_en ≡ c.hw_en
  pub par_polarity : t.par_polarity ≡ c.par_polarity
  pub channels : t.channels ≡ c.channels
  pub commands : t.commands ≡ c.commands

-- The channel of a node, and the state with its crossbar.
abbrev pub Channel : Node → ℕ → ℕ → Cled → Cled → Type 0
Channel node bit ch c m =
    ((node.crossbar ≡ false) × (ch ≡ bit) × (m ≡ c))
    ⊎ ((node.crossbar ≡ true) × (node.output ≡ some ch) × (ch ≤ 31) × IsRouted ch bit c m)

-- A node that names no channel.
abbrev pub IsUnusable : Node → Type 0
IsUnusable node =
    (node.bit ≡ none)
    ⊎ ((node.crossbar ≡ true)
        × ((node.output ≡ none) ⊎ ((out : ℕ) × (node.output ≡ some out) × (31 < out))))

abbrev pub Added : Node → Cled → Option Errno × Cled → Type 0
Added node c r =
    (IsUnusable node × (r ≡ (some einval, c)))
    ⊎ ((bit ch : ℕ) × (m : Cled) × (node.bit ≡ some bit)
        × Channel node bit ch c m
        × Driven node ch m r)
