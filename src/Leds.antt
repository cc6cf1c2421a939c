-- ===== src/Leds.antt =====
-- The LED controller of port66/leds66/leds-bca-cled.c.
use cudy_wr3600_openwrt.Prelude.{
  Bool, Errno, List, Option, Result, [], einval, enomem, err, false, if◌then◌else◌, ltb, none, not,
  ok, some, suc, true, update, zero, ℕ, ◌%◌, ◌&&◌, ◌*◌, ◌+◌, ◌-◌, ◌/◌, ◌==◌, ◌^◌, ◌||◌, ◌∷◌,
}
use Prim.Native.Nat.{bit_or, bit_and}
pub mod Fields
pub mod Lights
pub mod Nodes

-- A write to one of the registers that act on the bits written to them.
pub data Command : Type 0 where
  sets clears activates : ℕ → Command

-- `struct bca_cled`, and the registers that keep what is written to them; `channels` is the cfg0 word
-- of each channel, `out_mux` an array of words. `commands` is the writes to the others, newest first.
pub record Cled : Type 0 where
  pub nleds : ℕ
  pub hw_en : ℕ
  pub par_polarity : ℕ
  pub channels : ℕ → ℕ
  pub out_mux : ℕ → ℕ
  pub commands : List Command
  pub warned : Bool

-- What the hardware answers, after the writes so far: the n-th read of ch_activate since then, and
-- sw_status.
pub record Hw : Type 0 where
  pub activating : List Command → ℕ → ℕ
  pub status : List Command → ℕ

-- `~mask` on 32 bits.
abbrev pub not32 : ℕ → ℕ
not32 mask = 2 ^ 32 - 1 - mask

-- `BIT(ch)`
abbrev pub bit_of : ℕ → ℕ
bit_of ch = 2 ^ ch

-- The loop of `bca_cled_activate`, with `n` polls left: whether the channel completed.
unfoldable pub poll_activate : Hw → List Command → ℕ → ℕ → ℕ → Bool
poll_activate hw cs mask zero i = false
poll_activate hw cs mask (suc n) i =
    let rest = poll_activate hw cs mask n (suc i) in
    if bit_and (hw.activating cs i) mask == 0 then true else rest

-- `CLED_ACTIVATE_POLLS`
abbrev pub activate_polls : ℕ
activate_polls = 1000

-- `bca_cled_activate`
unfoldable pub activate : Hw → ℕ → Cled → Cled
activate hw mask c =
    let cs = activates mask ∷ c.commands in
    record c { commands = cs; warned = c.warned || not (poll_activate hw cs mask activate_polls 0) }

-- `CLED_CFG0_BRIGHT_MASK`
abbrev pub bright_mask : ℕ
bright_mask = 0xff * 2 ^ 6

-- The word that `bca_cled_set_brightness_hw` writes.
unfoldable pub bright_word : ℕ → ℕ → ℕ
bright_word reg val = bit_or (bit_and reg (not32 bright_mask)) (val * 2 ^ 6)

-- `bca_cled_set_brightness_hw`, where `val` is cut to a byte.
unfoldable pub set_brightness_hw : Hw → ℕ → ℕ → Cled → Cled
set_brightness_hw hw ch val c =
    activate hw (bit_of ch)
      (record c { channels = update c.channels ch (bright_word (c.channels ch) (val % 2 ^ 8)) })

-- `bca_cled_brightness_set`
unfoldable pub brightness_set : ℕ → ℕ → Cled → Cled
brightness_set ch value c = record c {
  commands = (if value == 0 then clears (bit_of ch) else sets (bit_of ch)) ∷ c.commands;
}

-- `bca_cled_brightness_get`: LED_FULL or LED_OFF.
unfoldable pub brightness_get : Hw → ℕ → Cled → ℕ
brightness_get hw ch c = if bit_and (hw.status c.commands) (bit_of ch) == 0 then 0 else 255

-- `CLED_MUX_FIELD_MASK`
abbrev pub mux_field : ℕ
mux_field = 0x3f

-- The word that `bca_cled_setup_crossbar` writes.
unfoldable pub mux_word : ℕ → ℕ → ℕ → ℕ
mux_word reg shift led_num =
    bit_or (bit_and reg (not32 (mux_field * 2 ^ shift))) (bit_and led_num mux_field * 2 ^ shift)

-- `bca_cled_setup_crossbar`, given the "crossbar-output" of the pin group, if there is one.
unfoldable pub setup_crossbar : Option ℕ → ℕ → Cled → Result ℕ × Cled
setup_crossbar none led_num c = (err einval, c)
setup_crossbar (some out) led_num c = if ltb 31 out then (err einval, c) else (
  ok out,
  record c {
    out_mux = update c.out_mux (out / 4) (mux_word (c.out_mux (out / 4)) (out % 4 * 8) led_num);
  },
)

-- A child node, as the kernel's helpers read it; `output` is the pin group's "crossbar-output".
pub record Node : Type 0 where
  pub is_parallel : Bool
  pub is_software : Bool
  pub bit : Option ℕ
  pub brightness : Option ℕ
  pub crossbar : Bool
  pub output : Option ℕ
  pub active_high : Bool
  pub granted : Bool
  pub register : Option Errno

abbrev pub or_full : Option ℕ → ℕ
or_full none = 255
or_full (some b) = b

-- The channel put under software control, with its polarity and its brightness.
unfoldable pub take_over : Hw → Node → ℕ → Cled → Cled
take_over hw node ch c =
    let software = bit_and c.hw_en (not32 (bit_of ch)) in
    let polarity =
      if node.active_high
      then bit_or c.par_polarity (bit_of ch)
      else bit_and c.par_polarity (not32 (bit_of ch)) in
    set_brightness_hw hw ch (or_full node.brightness)
      (record c { hw_en = software; par_polarity = polarity })

-- From the range check on, for a channel as the C `int`.
unfoldable pub drive : Hw → Node → ℕ → Cled → Option Errno × Cled
drive hw node ch c =
    if ltb 31 ch || not (ltb ch c.nleds)
    then (some einval, c)
    else if not node.granted
    then (some enomem, c)
    else (node.register, take_over hw node ch c)

abbrev pub driven : Hw → Node → Result ℕ × Cled → Option Errno × Cled
driven hw node (err e, c) = (some e, c)
driven hw node (ok ch, c) = drive hw node ch c

-- `bca_cled_add_led`
unfoldable pub add_led : Hw → Node → Cled → Option Errno × Cled
add_led hw node c = elim node.bit as (λ x. Option Errno × Cled) [
  | none ↦ (some einval, c)
  | some bit ↦
      driven hw node (if node.crossbar then setup_crossbar node.output bit c else (ok bit, c))
]

abbrev pub counted : Option Errno → ℕ → ℕ
counted none n = n + 1
counted (some e) n = n

-- The loop of `bca_cled_probe` over the children: how many LEDs were registered.
unfoldable pub add_leds : Hw → List Node → ℕ → Cled → ℕ × Cled
add_leds hw [] n c = (n, c)
add_leds hw (node ∷ rest) n c =
    let r = add_led hw node c in
    let next : ℕ × Cled =
      if node.is_parallel && node.is_software then (counted r.0 n, r.1) else (n, c) in
    add_leds hw rest next.0 next.1
