-- ===== src/D3lut/Keys.antt =====
-- The 16-bit key that wl_compat.c's `d3lut_ins` gives an element: index in bits 0 to 11,
-- incarnation in bit 12, pool in bits 13 to 15 (the layout that the file states for `key_v16`).
use cudy_wr3600_openwrt.Prelude.{ap, arith, ℕ, ◌%◌, ◌*◌, ◌+◌, ◌/◌, ◌<◌, ◌^◌, ◌≡◌}
use Prim.Native.Nat.{bit_or}
use cudy_wr3600_openwrt.Prelude.Bits.{
  bit_or-zero, bit_or_above, bit_or_digit, bit_and_low, bit_or-mod, zero-bit_or,
}
use cudy_wr3600_openwrt.D3lut.{key_of}

-- The word before it is cut to 16 bits: the incarnation number overlaps the pool above its bit 0.
key_word : (s i n : ℕ) → s < 8 → i < 4096 → key_of s i n ≡ (i + bit_or n (s * 2) * 2 ^ 12) % 2 ^ 16
unfolding key_of
key_word s i n hs hi =
    let low = bit_and_low 12 i in
    let pool = bit_and_low 3 s in
    let apart = bit_or_above 12 i 0 n hi in
    let above = bit_or_above 12 i n (s * 2) hi in
    let doubled : s * 2 ^ 13 ≡ s * 2 * 2 ^ 12 = omega arith in
    ap (λ w. w % 2 ^ 16) (ground (arith, low, pool, apart, above, doubled, zero-bit_or n))

-- A key decodes into the index, the incarnation's lowest bit, and the pool number with the
-- incarnation's bits 1 to 3 on top of it.
pub key_of_fields :
    (s i n : ℕ)
    → s < 8
    → i < 4096
    → (key_of s i n % 2 ^ 12 ≡ i)
      × (key_of s i n / 2 ^ 12 % 2 ≡ n % 2)
      × (key_of s i n / 2 ^ 13 ≡ bit_or (n / 2 % 8) s)
key_of_fields s i n hs hi =
    let half : s * 2 / 2 ≡ s = omega arith in
    let word = key_word s i n hs hi in
    let digit = bit_or_digit n (s * 2) in
    let field = bit_or-mod 3 (n / 2) s in ground (arith, half, word, digit, field)

-- A key with the incarnation 0 or 1 names its pool.
pub key_of_pool :
    (s i n : ℕ) → s < 8 → i < 4096 → n < 2 → key_of s i n ≡ i + n * 2 ^ 12 + s * 2 ^ 13
key_of_pool s i n hs hi hn =
    let low : n / 2 ≡ 0 = omega arith in
    ground (arith, key_of_fields s i n hs hi, zero-bit_or s, low)

-- For an index below 4096 and whatever incarnation `n`, an element of pool 0 has the key that the pool
-- with the number of the incarnation's bits 1 to 3 gives to the same index with the incarnation's
-- lowest bit: a key of another pool, unless these three bits are zero.
pub key_of_collides : (n i : ℕ) → i < 4096 → key_of 0 i n ≡ key_of (n / 2 % 8) i (n % 2)
key_of_collides n i hi =
    let d = n / 2 % 8 in
    let b = n % 2 in
    let pool : d < 8 = omega arith in
    let low : b < 2 = omega arith in
    ground (arith, key_of_fields 0 i n, key_of_pool d i b pool hi low, bit_or-zero d, hi)
