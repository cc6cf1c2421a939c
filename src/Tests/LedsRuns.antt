-- ===== src/Tests/LedsRuns.antt =====
-- The internet LED of the panel, for leds-bca-cled.c.
use cudy_wr3600_openwrt.Prelude.{List, [], false, none, some, true, ℕ, ◌-◌, ◌^◌, ◌∷◌}
use Prim.Native.Nat.{bit_or, bit_and}
use cudy_wr3600_openwrt.Leds.{Command, sets, clears, activates, Cled, Hw, Node}

abbrev cled : Cled
cled = record {
  nleds = 64;
  hw_en = 0xffffffff;
  par_polarity = 0;
  channels = λ ch. 0;
  out_mux = λ w. 0x03020100;
  commands = [];
  warned = false;
}

-- sw_status, one bit at a time.
abbrev lit : ℕ → List Command → ℕ
lit n [] = 0
lit n (sets m ∷ cs) = bit_or m (lit n cs)
lit n (clears m ∷ cs) = bit_and (lit n cs) (2 ^ n - 1 - m)
lit n (activates m ∷ cs) = lit n cs

abbrev hw : Hw
hw = record { activating = λ cs n. 0; status = lit 32 }

abbrev internet : Node
internet = record {
  is_parallel = true;
  is_software = true;
  bit = some 4;
  brightness = some 255;
  crossbar = true;
  output = some 3;
  active_high = false;
  granted = true;
  register = none;
}
