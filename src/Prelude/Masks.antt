-- ===== src/Prelude/Masks.antt =====
-- The single bits of a word, through masks and shifts.
use Prim.Native.Nat.{
  ℕ, zero, suc, ◌+◌, ◌*◌, ◌/◌, ◌%◌, ◌^◌, ◌-◌, ◌≤◌, ◌<◌, min, max, bit_or, bit_and,
}
use mathlib.Core.Path.{◌≡◌, refl, sym, ap, ◌∙◌}
use native.Mathlib.Nat.{pow-suc, one-le-pow, div-div-eq-div-mul, mul_comm}
use native.Mathlib.Omega.{arith}
use cudy_wr3600_openwrt.Prelude.Tests.{if◌then◌else◌, ltb, ◌==◌}
use cudy_wr3600_openwrt.Prelude.Bits.{bit_or_digit, bit_and_digit, bit_and_low, mod_digit}

-- The bit number `k` of a word.
abbrev pub bit_at : ℕ → ℕ → ℕ
bit_at zero a = a % 2
bit_at (suc k) a = bit_at k (a / 2)

pub bit_at-zero : (k : ℕ) → bit_at k 0 ≡ 0
bit_at-zero zero = refl
bit_at-zero (suc k) = bit_at-zero k

pub bit_at-bit_or : (k a b : ℕ) → bit_at k (bit_or a b) ≡ max (bit_at k a) (bit_at k b)
bit_at-bit_or zero a b = ground (arith, bit_or_digit a b)
bit_at-bit_or (suc k) a b =
    let half : bit_or a b / 2 ≡ bit_or (a / 2) (b / 2) = ground (arith, bit_or_digit a b) in
    ap (bit_at k) half ∙ bit_at-bit_or k (a / 2) (b / 2)

pub bit_at-bit_and : (k a b : ℕ) → bit_at k (bit_and a b) ≡ min (bit_at k a) (bit_at k b)
bit_at-bit_and zero a b = ground (arith, bit_and_digit a b)
bit_at-bit_and (suc k) a b =
    let half : bit_and a b / 2 ≡ bit_and (a / 2) (b / 2) = ground (arith, bit_and_digit a b) in
    ap (bit_at k) half ∙ bit_at-bit_and k (a / 2) (b / 2)

pub bit_at-pow : (k j : ℕ) → bit_at k (2 ^ j) ≡ (if j == k then 1 else 0)
bit_at-pow zero zero = refl
bit_at-pow zero (suc j) = ground (arith, pow-suc 2 j)
bit_at-pow (suc k) zero = bit_at-zero k ∙ ground arith
bit_at-pow (suc k) (suc j) =
    let half : 2 ^ suc j / 2 ≡ 2 ^ j = omega (arith, pow-suc 2 j) in
    ap (bit_at k) half ∙ bit_at-pow k j ∙ ground arith

-- The low bits of a word are those below its remainder.
pub bit_at-mod : (k w a : ℕ) → bit_at k (a % 2 ^ w) ≡ (if ltb k w then bit_at k a else 0)
bit_at-mod k zero a =
    let empty : a % 2 ^ 0 ≡ 0 = omega arith in ap (bit_at k) empty ∙ bit_at-zero k ∙ ground arith
bit_at-mod zero (suc w) a = ground (arith, mod_digit w a)
bit_at-mod (suc k) (suc w) a =
    let half : a % 2 ^ suc w / 2 ≡ a / 2 % 2 ^ w = ground (arith, mod_digit w a) in
    ap (bit_at k) half ∙ bit_at-mod k w (a / 2) ∙ ground arith

pub bit_at-low : (k a : ℕ) → bit_at k a < 2
bit_at-low zero a = omega arith
bit_at-low (suc k) a = bit_at-low k (a / 2)

-- A shift to the left.
pub bit_at-shift : (k s v : ℕ) → bit_at k (v * 2 ^ s) ≡ (if ltb k s then 0 else bit_at (k - s) v)
bit_at-shift k zero v =
    let same : v * 2 ^ 0 ≡ v = omega arith in
    let whole : k - 0 ≡ k = omega arith in
    ap (bit_at k) same ∙ ground (arith, ap (λ j. bit_at j v) whole)
bit_at-shift zero (suc s) v = ground (arith, pow-suc 2 s, ap (λ t. v * t) (pow-suc 2 s))
bit_at-shift (suc k) (suc s) v =
    let half : v * 2 ^ suc s / 2 ≡ v * 2 ^ s = omega (arith, ap (λ t. v * t) (pow-suc 2 s)) in
    let less : suc k - suc s ≡ k - s = omega arith in
    ap (bit_at k) half ∙ bit_at-shift k s v ∙ ground (arith, ap (λ j. bit_at j v) less)

-- The complement on `w` bits.
pub bit_at-not : (k w m : ℕ) → k < w → m < 2 ^ w → bit_at k (2 ^ w - 1 - m) ≡ 1 - bit_at k m
bit_at-not k zero m h b = absurd (omega (arith, h))
bit_at-not zero (suc w) m h b = omega (arith, pow-suc 2 w, one-le-pow w 2, b)
bit_at-not (suc k) (suc w) m h b =
    let half : (2 ^ suc w - 1 - m) / 2 ≡ 2 ^ w - 1 - m / 2 =
      omega (arith, pow-suc 2 w, one-le-pow w 2, b) in
    ap (bit_at k) half ∙ bit_at-not k w (m / 2) (omega (arith, h)) (omega (arith, pow-suc 2 w, b))

pub bit_at-ones : (k n : ℕ) → bit_at k (2 ^ n - 1) ≡ (if ltb k n then 1 else 0)
bit_at-ones k zero = bit_at-zero k ∙ ground arith
bit_at-ones zero (suc n) = ground (arith, pow-suc 2 n, one-le-pow n 2)
bit_at-ones (suc k) (suc n) =
    let half : (2 ^ suc n - 1) / 2 ≡ 2 ^ n - 1 = omega (arith, pow-suc 2 n, one-le-pow n 2) in
    ap (bit_at k) half ∙ bit_at-ones k n ∙ ground arith

pub bit_at-above : (k n a : ℕ) → a < 2 ^ n → n ≤ k → bit_at k a ≡ 0
bit_at-above k zero a h le =
    let none : a ≡ 0 = omega (arith, h) in ap (bit_at k) none ∙ bit_at-zero k
bit_at-above zero (suc n) a h le = absurd (omega (arith, le))
bit_at-above (suc k) (suc n) a h le =
    bit_at-above k n (a / 2) (omega (arith, h, pow-suc 2 n)) (omega (arith, le))

-- Words with the same bits are equal.
pub bits_ext :
    (w a b : ℕ) → a < 2 ^ w → b < 2 ^ w → ((k : ℕ) → k < w → bit_at k a ≡ bit_at k b) → a ≡ b
bits_ext zero a b ha hb h = omega (arith, ha, hb)
bits_ext (suc w) a b ha hb h = omega (
  arith,
  h 0 (omega arith),
  bits_ext w (a / 2) (b / 2) (omega (arith, ha, pow-suc 2 w)) (omega (arith, hb, pow-suc 2 w))
      (λ k lt. h (suc k) (omega (arith, lt))),
)

pub bit_at-div : (k s a : ℕ) → bit_at k (a / 2 ^ s) ≡ bit_at (k + s) a
bit_at-div k zero a =
    let whole : a / 2 ^ 0 ≡ a = omega arith in
    let same : k ≡ k + 0 = omega arith in ap (bit_at k) whole ∙ ap (λ j. bit_at j a) same
bit_at-div k (suc s) a =
    let half : a / 2 ^ suc s ≡ a / 2 / 2 ^ s =
      ap (λ t. a / t) (pow-suc 2 s)
      ∙ ap (λ t. a / t) (mul_comm (2 ^ s) 2)
      ∙ sym (div-div-eq-div-mul a 2 (2 ^ s)) in
    let next : suc (k + s) ≡ k + suc s = omega arith in
    ap (bit_at k) half ∙ bit_at-div k s (a / 2) ∙ ap (λ j. bit_at j a) next

-- One bit, masked out.
pub bit_and-pow : (j x : ℕ) → bit_and x (2 ^ j) ≡ bit_at j x * 2 ^ j
bit_and-pow zero x = omega (arith, bit_and_low 1 x)
bit_and-pow (suc j) x =
    let half : 2 ^ suc j / 2 ≡ 2 ^ j = omega (arith, pow-suc 2 j) in
    omega (
      arith,
      bit_and_digit x (2 ^ suc j),
      ap (bit_and (x / 2)) half,
      bit_and-pow j (x / 2),
      pow-suc 2 j,
      ap (λ t. bit_at j (x / 2) * t) (pow-suc 2 j),
    )
