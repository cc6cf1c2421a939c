-- ===== src/Leds/Lights.antt =====
-- What the operations of leds-bca-cled.c do to the lights.
use cudy_wr3600_openwrt.Prelude.{
  Bool, not, true, ◌||◌, Errno, Option, ap, einval, enomem, false, ◌+◌, ◌≢◌, ◌⊎◌, Bool-cases, List,
  Result, arith, err, if◌then◌else◌, inl, inr, ltb, ok, refl, some, update, ℕ, ◌%◌, ◌*◌, ◌-◌, ◌/◌,
  ◌<◌, ◌==◌, ◌^◌, ◌∷◌, ◌≡◌, ◌≤◌,
}
use Prim.Native.Nat.{max}
use native.Mathlib.Nat.{one-le-pow}
use cudy_wr3600_openwrt.Prelude.Masks.{
  bit_at, bit_at-low, bit_at-pow, bit_at-div, bit_at-mod, bit_and-pow, bits_ext,
}
use cudy_wr3600_openwrt.Leds.{
  or_full, Command, sets, clears, activates, Cled, Hw, Node, bit_of, bright_word, mux_word,
  activate, set_brightness_hw, brightness_set, brightness_get, setup_crossbar, take_over, drive,
}
use cudy_wr3600_openwrt.Leds.Fields.{
  pow_fits, bit_at-bright_word, bit_at-mux_word, bit_at-without, bit_at-with,
}

-- The LED number that the multiplexer feeds into an output.
abbrev pub fed : ℕ → Cled → ℕ
fed o c = c.out_mux (o / 4) / 2 ^ (o % 4 * 8) % 2 ^ 6

-- A crossbar that is set up, or refused.
abbrev pub Routed : ℕ → ℕ → Cled → Result ℕ × Cled → Type 0
Routed out led_num c (err e, t) = (31 < out) × (t ≡ c)
Routed out led_num c (ok ch, t) =
    (ch ≡ out)
    × (out ≤ 31)
    × ((o : ℕ) → o ≤ 31 → fed o t ≡ (if o == out then led_num % 2 ^ 6 else fed o c))

routed_bit :
    (k reg j i led_num : ℕ)
    → k < 6
    → j < 4
    → i < 4
    → bit_at k (mux_word reg (j * 8) led_num / 2 ^ (i * 8) % 2 ^ 6)
      ≡ bit_at k (if i == j then led_num % 2 ^ 6 else reg / 2 ^ (i * 8) % 2 ^ 6)
routed_bit k reg j i led_num h lt le =
    let mux = mux_word reg (j * 8) led_num in
    let left : bit_at k (mux / 2 ^ (i * 8) % 2 ^ 6) ≡ bit_at (k + i * 8) mux =
      ground (arith, bit_at-mod k 6 (mux / 2 ^ (i * 8)), bit_at-div k (i * 8) mux) in
    let right : bit_at k (reg / 2 ^ (i * 8) % 2 ^ 6) ≡ bit_at (k + i * 8) reg =
      ground (arith, bit_at-mod k 6 (reg / 2 ^ (i * 8)), bit_at-div k (i * 8) reg) in
    let written = bit_at-mux_word (k + i * 8) reg j led_num (omega (arith, h, le)) lt in
    elim (Bool-cases (i == j)) [
      | inl e ↦
          let place : k + i * 8 - j * 8 ≡ k = ground (arith, e) in
          ground (arith, e, left, written, ap (λ n. bit_at n (led_num % 2 ^ 6)) place)
      | inr e ↦ ground (arith, e, left, right, written)
    ]

pub fed-set :
    (out o led_num : ℕ) (c : Cled)
    → o ≤ 31
    → out ≤ 31
    → fed o (record c {
      out_mux = update c.out_mux (out / 4) (mux_word (c.out_mux (out / 4)) (out % 4 * 8) led_num);
    })
      ≡ (if o == out then led_num % 2 ^ 6 else fed o c)
fed-set out o led_num c h ho = elim (Bool-cases (out / 4 == o / 4)) [
  | inl e ↦
      let same : o / 4 ≡ out / 4 = ground (arith, e) in
      let mux = mux_word (c.out_mux (out / 4)) (out % 4 * 8) led_num in
      let value : mux / 2 ^ (o % 4 * 8) % 2 ^ 6 ≡ (
          if o % 4 == out % 4
          then led_num % 2 ^ 6
          else c.out_mux (out / 4) / 2 ^ (o % 4 * 8) % 2 ^ 6) =
        bits_ext 6 _ _ (omega arith) (ground arith) (λ k lt.
          routed_bit k (c.out_mux (out / 4)) (out % 4) (o % 4) led_num lt (omega arith)
            (omega arith)) in
      ground (arith, e, value, ap (λ w. c.out_mux w / 2 ^ (o % 4 * 8) % 2 ^ 6) same)
  | inr e ↦ ground (arith, e)
]

-- A crossbar is refused for an output above 31 and changes nothing; else it feeds the LED number into
-- its output and leaves every other output with the number that it had.
pub setup_crossbar-Routed :
    (out led_num : ℕ) (c : Cled) → Routed out led_num c (setup_crossbar (some out) led_num c)
unfolding setup_crossbar
setup_crossbar-Routed out led_num c = elim (Bool-cases (ltb 31 out)) [
  | inl e ↦ rw e (ground (arith, e), refl)
  | inr e ↦ rw e (refl, ground (arith, e), λ o h. fed-set out o led_num c h (ground (arith, e)))
]

-- What sw_status shows after a write to sw_set or to sw_clear.
pub record IsLatch (hw : Hw) : Type 0 where
  pub after_set :
      (cs : List Command) (m k : ℕ)
      → m < 2 ^ 32
      → k < 32
      → bit_at k (hw.status (sets m ∷ cs)) ≡ max (bit_at k m) (bit_at k (hw.status cs))
  pub after_clear :
      (cs : List Command) (m k : ℕ)
      → m < 2 ^ 32
      → k < 32
      → bit_at k (hw.status (clears m ∷ cs)) ≡ bit_at k (hw.status cs) - bit_at k m

brightness_get-bit :
    (hw : Hw) (ch : ℕ) (c : Cled)
    → brightness_get hw ch c ≡ (if bit_at ch (hw.status c.commands) == 0 then 0 else 255)
unfolding brightness_get
brightness_get-bit hw ch c =
    let x = hw.status c.commands in
    elim (Bool-cases (bit_at ch x == 0)) [
      | inl e ↦
          let off : bit_at ch x ≡ 0 = ground (arith, e) in
          ground (arith, e, bit_and-pow ch x, ap (λ t. t * 2 ^ ch) off)
      | inr e ↦
          let on : bit_at ch x ≡ 1 = ground (arith, e, bit_at-low ch x) in
          ground (arith, e, bit_and-pow ch x, ap (λ t. t * 2 ^ ch) on, one-le-pow ch 2)
    ]

-- A LED that was set reads as full or off, as its value is positive or zero, and every other LED reads
-- as before.
pub brightness_get-brightness_set :
    (hw : Hw) (ch value other : ℕ) (c : Cled)
    → IsLatch hw
    → ch < 32
    → other < 32
    → brightness_get hw other (brightness_set ch value c)
      ≡ (if other == ch then (if value == 0 then 0 else 255) else brightness_get hw other c)
unfolding brightness_set
brightness_get-brightness_set hw ch value other c v lc lo = ground (
  arith,
  brightness_get-bit hw other (brightness_set ch value c),
  brightness_get-bit hw other c,
  v.after_set c.commands (bit_of ch) other (pow_fits ch lc) lo,
  v.after_clear c.commands (bit_of ch) other (pow_fits ch lc) lo,
  bit_at-pow other ch,
  bit_at-low other (hw.status c.commands),
)

level_lem :
    (k reg level : ℕ) → k < 8 → bit_at (k + 6) (bright_word reg (level % 2 ^ 8)) ≡ bit_at k level
level_lem k reg level lt =
    let place : k + 6 - 6 ≡ k = omega arith in
    ground (
      arith,
      bit_at-bright_word (k + 6) reg (level % 2 ^ 8) (omega (arith, lt)) (omega arith),
      ap (λ n. bit_at n (level % 2 ^ 8)) place,
      bit_at-mod k 8 level,
    )

-- The state after a LED was driven: its channel is under software control, has the polarity and the
-- brightness of its node, and nothing else is different.
pub record IsDriven (node : Node) (ch : ℕ) (c t : Cled) : Type 0 where
  pub software : (k : ℕ) → k < 32 → bit_at k t.hw_en ≡ (if k == ch then 0 else bit_at k c.hw_en)
  pub polarity :
      (k : ℕ)
      → k < 32
      → bit_at k t.par_polarity
        ≡ (if k == ch then (if node.active_high then 1 else 0) else bit_at k c.par_polarity)
  pub level : (k : ℕ) → k < 8 → bit_at (k + 6) (t.channels ch) ≡ bit_at k (or_full node.brightness)
  pub others : (o : ℕ) → o ≢ ch → t.channels o ≡ c.channels o
  pub mux : t.out_mux ≡ c.out_mux
  pub activated : t.commands ≡ activates (bit_of ch) ∷ c.commands

-- A LED that is refused before anything is written, or driven and then registered.
abbrev pub Driven : Node → ℕ → Cled → Option Errno × Cled → Type 0
Driven node ch c (o, t) =
    ((t ≡ c)
      × (((o ≡ some einval) × ((31 < ch) ⊎ (c.nleds ≤ ch)))
          ⊎ ((o ≡ some enomem) × (node.granted ≡ false))))
    ⊎ ((o ≡ node.register) × (ch ≤ 31) × (ch < c.nleds) × IsDriven node ch c t)

take_over-IsDriven :
    (hw : Hw) (node : Node) (ch : ℕ) (c : Cled)
    → ch ≤ 31
    → IsDriven node ch c (take_over hw node ch c)
unfolding take_over set_brightness_hw activate
take_over-IsDriven hw node ch c h = record {
  software = λ k lt. bit_at-without k ch c.hw_en lt (omega (arith, h));
  polarity = λ k lt. ground (
    arith,
    bit_at-without k ch c.par_polarity lt (omega (arith, h)),
    bit_at-with k ch c.par_polarity,
  );
  level = λ k lt. ground (arith, level_lem k (c.channels ch) (or_full node.brightness) lt);
  others = λ o other. ground (arith, other);
  mux = refl;
  activated = refl;
}

Driven-if :
    (b g : Bool) (hw : Hw) (node : Node) (ch : ℕ) (c : Cled)
    → (ltb 31 ch || not (ltb ch c.nleds)) ≡ b
    → not node.granted ≡ g
    → Driven node ch c (
        if b
        then (some einval, c)
        else if g
        then (some enomem, c)
        else (node.register, take_over hw node ch c))
Driven-if true g hw node ch c e f = inl (refl, inl (refl, ground (arith, e)))
Driven-if false true hw node ch c e f = inl (refl, inr (refl, ground (arith, f)))
Driven-if false false hw node ch c e f = inr (
  refl,
  ground (arith, e),
  ground (arith, e),
  take_over-IsDriven hw node ch c (ground (arith, e)),
)

-- A LED whose channel is above 31 or beyond the controller's is refused, and so is one without memory:
-- nothing more is written then. Else its channel is driven as its node says.
pub drive-Driven :
    (hw : Hw) (node : Node) (ch : ℕ) (c : Cled) → Driven node ch c (drive hw node ch c)
unfolding drive
drive-Driven hw node ch c =
    Driven-if (ltb 31 ch || not (ltb ch c.nleds)) (not node.granted) hw node ch c refl refl
