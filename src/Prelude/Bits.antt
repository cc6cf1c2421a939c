-- ===== src/Prelude/Bits.antt =====
-- `bit_or` and `bit_and` at variables: the equation of the lowest digit, and what follows for fields
-- that are packed side by side in a word.
use Prim.Native.Nat.{
  ℕ, zero, suc, ◌+◌, ◌*◌, ◌/◌, ◌%◌, ◌^◌, ◌-◌, ◌≤◌, ◌<◌, min, max, bit_and, bit_or, digits,
  bit_and-bitwise, bit_or-bitwise,
}
use mathlib.Core.Path.{◌≡◌, refl, ap, ◌∙◌}
use native.Mathlib.Nat.{pow-suc, one-le-pow, add-mul-mod_self_left, mod-eq_of_lt, div-add-mod}
use native.Mathlib.Omega.{arith}

-- Two amounts of fuel that are both enough for `a` give the same digits.
same_digits :
    (z : ℕ → ℕ) (f : ℕ → ℕ → ℕ) (a b p q : ℕ) → a ≤ p → a ≤ q → digits z f p a b ≡ digits z f q a b
same_digits z f zero b zero zero hp hq = refl
same_digits z f zero b zero (suc q) hp hq = refl
same_digits z f zero b (suc p) zero hp hq = refl
same_digits z f zero b (suc p) (suc q) hp hq = refl
same_digits z f (suc a) b zero q hp hq = absurd (omega arith)
same_digits z f (suc a) b (suc p) zero hp hq = absurd (omega arith)
same_digits z f (suc a) b (suc p) (suc q) hp hq =
    ap (λ d. d * 2 + f (suc a % 2) (b % 2))
      (same_digits z f (suc a / 2) (b / 2) p q (omega arith) (omega arith))

pub bit_or_digit : (a b : ℕ) → bit_or a b ≡ bit_or (a / 2) (b / 2) * 2 + max (a % 2) (b % 2)
bit_or_digit zero b = omega (arith, bit_or-bitwise 0 b, bit_or-bitwise 0 (b / 2))
bit_or_digit (suc a) b = omega (
  arith,
  bit_or-bitwise (suc a) b,
  bit_or-bitwise (suc a / 2) (b / 2),
  same_digits (λ y. y) max (suc a / 2) (b / 2) a (suc a / 2) (omega arith) (omega arith),
)

pub bit_and_digit : (a b : ℕ) → bit_and a b ≡ bit_and (a / 2) (b / 2) * 2 + min (a % 2) (b % 2)
bit_and_digit zero b = omega (arith, bit_and-bitwise 0 b, bit_and-bitwise 0 (b / 2))
bit_and_digit (suc a) b = omega (
  arith,
  bit_and-bitwise (suc a) b,
  bit_and-bitwise (suc a / 2) (b / 2),
  same_digits (λ y. 0) min (suc a / 2) (b / 2) a (suc a / 2) (omega arith) (omega arith),
)

pub zero-bit_or : (b : ℕ) → bit_or 0 b ≡ b
zero-bit_or b = omega (arith, bit_or-bitwise 0 b)

zero-bit_and : (b : ℕ) → bit_and 0 b ≡ 0
zero-bit_and b = omega (arith, bit_and-bitwise 0 b)

-- A mask keeps a word within its width.
pub bit_and-lt : (w a b : ℕ) → a < 2 ^ w → bit_and a b < 2 ^ w
bit_and-lt zero zero b h = omega (arith, zero-bit_and b)
bit_and-lt zero (suc a) b h = absurd (omega (arith, h))
bit_and-lt (suc w) a b h = omega (
  arith,
  bit_and_digit a b,
  bit_and-lt w (a / 2) (b / 2) (omega (arith, h, pow-suc 2 w)),
  pow-suc 2 w,
)

pub bit_or-lt : (w a b : ℕ) → a < 2 ^ w → b < 2 ^ w → bit_or a b < 2 ^ w
bit_or-lt zero zero b h k = omega (arith, zero-bit_or b, k)
bit_or-lt zero (suc a) b h k = absurd (omega (arith, h))
bit_or-lt (suc w) a b h k = omega (
  arith,
  bit_or_digit a b,
  bit_or-lt w (a / 2) (b / 2) (omega (arith, h, pow-suc 2 w)) (omega (arith, k, pow-suc 2 w)),
  pow-suc 2 w,
)

bit_and-zero : (n a : ℕ) → a ≤ n → bit_and a 0 ≡ 0
bit_and-zero n zero h = omega (arith, bit_and-bitwise 0 0)
bit_and-zero zero (suc a) h = absurd (omega arith)
bit_and-zero (suc n) (suc a) h =
    omega (arith, bit_and_digit (suc a) 0, bit_and-zero n (suc a / 2) (omega arith))

bit_or-zero_below : (n a : ℕ) → a ≤ n → bit_or a 0 ≡ a
bit_or-zero_below n zero h = omega (arith, bit_or-bitwise 0 0)
bit_or-zero_below zero (suc a) h = absurd (omega arith)
bit_or-zero_below (suc n) (suc a) h =
    omega (arith, bit_or_digit (suc a) 0, bit_or-zero_below n (suc a / 2) (omega arith))

pub bit_or-zero : (a : ℕ) → bit_or a 0 ≡ a
bit_or-zero a = bit_or-zero_below a a (omega arith)

double_pow : (q k : ℕ) → q * 2 ^ suc k ≡ 2 * (q * 2 ^ k)
double_pow q k = omega (arith, ap (λ (t : ℕ). q * t) (pow-suc 2 k))

-- The remainder by `2 ^ suc k`, digit by digit.
pub mod_digit : (k a : ℕ) → a % 2 ^ suc k ≡ a / 2 % 2 ^ k * 2 + a % 2
mod_digit k a =
    ap (λ n. n % 2 ^ suc k) split
    ∙ add-mul-mod_self_left (a / 2 % 2 ^ k * 2 + a % 2) (2 ^ suc k) (a / 2 / 2 ^ k)
    ∙ mod-eq_of_lt (omega (arith, one-le-pow k 2, pow-suc 2 k))
  where
    split : a ≡ a / 2 % 2 ^ k * 2 + a % 2 + 2 ^ suc k * (a / 2 / 2 ^ k)
    split =
        omega
          (arith, div-add-mod (a / 2) (2 ^ k), ap (λ (t : ℕ). t * (a / 2 / 2 ^ k)) (pow-suc 2 k))

-- The `k` low bits of one side stand apart from a field above them.
pub bit_or_above :
    (k i c p : ℕ) → i < 2 ^ k → bit_or (i + c * 2 ^ k) (p * 2 ^ k) ≡ i + bit_or c p * 2 ^ k
bit_or_above zero i c p h = ground arith
bit_or_above (suc k) i c p h = ground (
  arith,
  bit_or_digit (i + c * 2 ^ suc k) (p * 2 ^ suc k),
  double_pow c k,
  double_pow p k,
  double_pow (bit_or c p) k,
  pow-suc 2 k,
  bit_or_above k (i / 2) c p,
)

-- A mask of `k` ones is the remainder by `2 ^ k`.
pub bit_and_low : (k a : ℕ) → bit_and a (2 ^ k - 1) ≡ a % 2 ^ k
bit_and_low zero a = omega (arith, bit_and-zero a a (omega arith))
bit_and_low (suc k) a = ground (
  arith,
  bit_and_digit a (2 ^ suc k - 1),
  pow-suc 2 k,
  one-le-pow k 2,
  bit_and_low k (a / 2),
  mod_digit k a,
)

pub bit_or-mod : (k a b : ℕ) → bit_or a b % 2 ^ k ≡ bit_or (a % 2 ^ k) (b % 2 ^ k)
bit_or-mod zero a b = ground arith
bit_or-mod (suc k) a b = ground (
  arith,
  mod_digit k (bit_or a b),
  mod_digit k a,
  mod_digit k b,
  bit_or_digit a b,
  bit_or_digit (a % 2 ^ suc k) (b % 2 ^ suc k),
  bit_or-mod k (a / 2) (b / 2),
)

bit_or_comm_below : (n a b : ℕ) → a ≤ n → bit_or a b ≡ bit_or b a
bit_or_comm_below n zero b h = omega (arith, zero-bit_or b, bit_or-zero b)
bit_or_comm_below zero (suc a) b h = absurd (omega (arith, h))
bit_or_comm_below (suc n) (suc a) b h = omega (
  arith,
  bit_or_digit (suc a) b,
  bit_or_digit b (suc a),
  bit_or_comm_below n (suc a / 2) (b / 2) (omega (arith, h)),
)

pub bit_or_comm : (a b : ℕ) → bit_or a b ≡ bit_or b a
bit_or_comm a b = bit_or_comm_below a a b (omega arith)

-- A field above `k` bits and what stands in them.
pub bit_or-fields : (k p c : ℕ) → c < 2 ^ k → bit_or (p * 2 ^ k) c ≡ p * 2 ^ k + c
bit_or-fields k p c h =
    let plain : c + 0 * 2 ^ k ≡ c = omega arith in
    omega (
      arith,
      bit_or_comm (p * 2 ^ k) c,
      ap (λ t. bit_or t (p * 2 ^ k)) plain,
      bit_or_above k c 0 p h,
      ap (λ t. t * 2 ^ k) (zero-bit_or p),
    )
