-- ===== src/Leds/Fields.antt =====
-- The fields that leds-bca-cled.c packs into the controller's words, bit by bit.
use native.Mathlib.Nat.{pow-le-pow_right}
use cudy_wr3600_openwrt.Prelude.Bits.{bit_and_low}
use cudy_wr3600_openwrt.Prelude.{
  ap, ◌%◌, ◌==◌, Bool-cases, arith, if◌then◌else◌, inl, inr, ltb, not, ℕ, ◌&&◌, ◌*◌, ◌+◌, ◌-◌, ◌<◌,
  ◌^◌, ◌≡◌,
}
use Prim.Native.Nat.{bit_or, bit_and}
use cudy_wr3600_openwrt.Prelude.Masks.{
  bit_at, bit_at-bit_or, bit_at-bit_and, bit_at-not, bit_at-shift, bit_at-ones, bit_at-above,
  bit_at-low, bit_at-pow,
}
use cudy_wr3600_openwrt.Leds.{not32, bit_of, bright_mask, bright_word, mux_field, mux_word}

-- Masking a field of `n` bits out at `s`.
bit_at-cleared :
    (k s n reg : ℕ)
    → k < 32
    → (2 ^ n - 1) * 2 ^ s < 2 ^ 32
    → bit_at k (bit_and reg (not32 ((2 ^ n - 1) * 2 ^ s)))
      ≡ (if not (ltb k s) && ltb k (s + n) then 0 else bit_at k reg)
bit_at-cleared k s n reg h fits =
    let mask = (2 ^ n - 1) * 2 ^ s in
    ground (
      arith,
      bit_at-bit_and k reg (not32 mask),
      bit_at-not k 32 mask h fits,
      bit_at-shift k s (2 ^ n - 1),
      bit_at-ones (k - s) n,
      bit_at-low k reg,
    )

-- A field of `n` bits put in at `s`.
bit_at-field :
    (k s n v : ℕ)
    → v < 2 ^ n
    → bit_at k (v * 2 ^ s) ≡ (if not (ltb k s) && ltb k (s + n) then bit_at (k - s) v else 0)
bit_at-field k s n v h = elim (Bool-cases (ltb (k - s) n)) [
  | inl e ↦ ground (arith, bit_at-shift k s v, e)
  | inr e ↦ ground (arith, bit_at-shift k s v, e, bit_at-above (k - s) n v h (ground (arith, e)))
]

-- The brightness stands in the bits 6 to 13 of the word, and the other bits are kept.
pub bit_at-bright_word :
    (k reg val : ℕ)
    → k < 32
    → val < 2 ^ 8
    → bit_at k (bright_word reg val)
      ≡ (if not (ltb k 6) && ltb k 14 then bit_at (k - 6) val else bit_at k reg)
unfolding bright_word
bit_at-bright_word k reg val h lt = ground (
  arith,
  bit_at-bit_or k (bit_and reg (not32 bright_mask)) (val * 2 ^ 6),
  bit_at-cleared k 6 8 reg h (omega arith),
  bit_at-field k 6 8 val lt,
)

mux_fits : (j : ℕ) → j < 4 → (2 ^ 6 - 1) * 2 ^ (j * 8) < 2 ^ 32
mux_fits j h =
    omega (arith, pow-le-pow_right {n = 2} (omega arith) {i = j * 8} {j = 24} (omega (arith, h)))

pub pow_fits : (ch : ℕ) → ch < 32 → 2 ^ ch < 2 ^ 32
pow_fits ch h =
    omega (arith, pow-le-pow_right {n = 2} (omega arith) {i = ch} {j = 31} (omega (arith, h)))

-- The LED number stands in six bits of one byte of the word, and the other bits are kept.
pub bit_at-mux_word :
    (k reg j led_num : ℕ)
    → k < 32
    → j < 4
    → bit_at k (mux_word reg (j * 8) led_num) ≡ (
        if not (ltb k (j * 8)) && ltb k (j * 8 + 6)
        then bit_at (k - j * 8) (led_num % 2 ^ 6)
        else bit_at k reg)
unfolding mux_word
bit_at-mux_word k reg j led_num h lt = ground (
  arith,
  bit_at-bit_or k (bit_and reg (not32 (mux_field * 2 ^ (j * 8))))
      (bit_and led_num mux_field * 2 ^ (j * 8)),
  bit_at-cleared k (j * 8) 6 reg h (mux_fits j lt),
  ap (λ v. bit_at k (v * 2 ^ (j * 8))) (bit_and_low 6 led_num),
  bit_at-field k (j * 8) 6 (led_num % 2 ^ 6) (omega arith),
)

-- One bit cleared, or set.
pub bit_at-without :
    (k ch reg : ℕ)
    → k < 32
    → ch < 32
    → bit_at k (bit_and reg (not32 (bit_of ch))) ≡ (if k == ch then 0 else bit_at k reg)
bit_at-without k ch reg h lt = ground (
  arith,
  bit_at-bit_and k reg (not32 (bit_of ch)),
  bit_at-not k 32 (bit_of ch) h (pow_fits ch lt),
  bit_at-pow k ch,
  bit_at-low k reg,
)

pub bit_at-with :
    (k ch reg : ℕ) → bit_at k (bit_or reg (bit_of ch)) ≡ (if k == ch then 1 else bit_at k reg)
bit_at-with k ch reg =
    ground (arith, bit_at-bit_or k reg (bit_of ch), bit_at-pow k ch, bit_at-low k reg)
