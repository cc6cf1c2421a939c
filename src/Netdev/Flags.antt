-- ===== src/Netdev/Flags.antt =====
-- The translation of device flags in shim_netdev.c.
use cudy_wr3600_openwrt.Prelude.{
  ◌≤◌, ◌↔◌, All, Bool-cases, Errno, List, Option, [], ap, arith, eopnotsupp, if◌then◌else◌, inl,
  inr, none, some, sym, ℕ, ◌-◌, ◌<◌, ◌==◌, ◌^◌, ◌∙◌, ◌∷◌, ◌≡◌,
}
use cudy_wr3600_openwrt.Prelude.Bits.{bit_and-lt, bit_or-lt}
use Prim.Native.Nat.{bit_or, bit_and, max, min}
use cudy_wr3600_openwrt.Prelude.Masks.{
  bit_at, bit_at-zero, bit_at-bit_and, bit_at-bit_or, bit_at-low, bit_at-not, bits_ext,
}

-- `netdev419_flag_pair`
pub record Pair : Type 0 where
  pub old : ℕ
  pub native : ℕ

-- The loop of flags_to_native: the native flags, and the flags that no pair has taken yet.
unfoldable pub take_flags : ℕ → ℕ → List Pair → ℕ × ℕ
take_flags old native [] = (native, old)
take_flags old native (p ∷ ps) =
    if bit_and old p.old == 0
    then take_flags old native ps
    else take_flags (bit_and old (2 ^ 64 - 1 - p.old)) (bit_or native p.native) ps

-- `flags_to_native`
unfoldable pub flags_to_native : ℕ → List Pair → Option Errno × ℕ
flags_to_native old ps =
    let r = take_flags old 0 ps in (if r.1 == 0 then none else some eopnotsupp, r.0)

-- `flags_to_old`, where `old` has the flags so far.
unfoldable pub flags_to_old_from : ℕ → ℕ → List Pair → ℕ
flags_to_old_from native old [] = old
flags_to_old_from native old (p ∷ ps) =
    let next = if bit_and native p.native == 0 then old else bit_or old p.old in
    flags_to_old_from native next ps

unfoldable pub flags_to_old : ℕ → List Pair → ℕ
flags_to_old native ps = flags_to_old_from native 0 ps

-- Whether a pair has the bit number `k` of the vendor's flags.
abbrev pub covered : ℕ → List Pair → ℕ
covered k [] = 0
covered k (p ∷ ps) = max (bit_at k p.old) (covered k ps)

abbrev pub IsPair : Pair → Type 0
IsPair p = p.old < 2 ^ 64

bit_at-take_flags :
    (k old native : ℕ) (ps : List Pair)
    → k < 64
    → All IsPair ps
    → bit_at k (take_flags old native ps).1 ≡ min (bit_at k old) (1 - covered k ps)
unfolding take_flags
bit_at-take_flags k old native [] h v = omega (arith, bit_at-low k old)
bit_at-take_flags k old native (p ∷ ps) h v = elim (Bool-cases (bit_and old p.old == 0)) [
  | inl e ↦
      let apart : min (bit_at k old) (bit_at k p.old) ≡ 0 =
        sym (bit_at-bit_and k old p.old) ∙ ap (bit_at k) (ground (arith, e)) ∙ bit_at-zero k in
      rw e (
        omega (
          arith,
          bit_at-take_flags k old native ps h v.1,
          apart,
          bit_at-low k old,
          bit_at-low k p.old,
        ))
  | inr e ↦ rw e (
      omega (
        arith,
        bit_at-take_flags k (bit_and old (2 ^ 64 - 1 - p.old)) (bit_or native p.native) ps h v.1,
        bit_at-bit_and k old (2 ^ 64 - 1 - p.old),
        bit_at-not k 64 p.old h v.0,
        bit_at-low k old,
        bit_at-low k p.old,
      ))
]

take_flags-lt :
    (old native : ℕ) (ps : List Pair) → old < 2 ^ 64 → (take_flags old native ps).1 < 2 ^ 64
unfolding take_flags
take_flags-lt old native [] h = h
take_flags-lt old native (p ∷ ps) h = elim (Bool-cases (bit_and old p.old == 0)) [
  | inl e ↦ rw e (take_flags-lt old native ps h)
  | inr e ↦ rw e (
      take_flags-lt (bit_and old (2 ^ 64 - 1 - p.old)) (bit_or native p.native) ps
        (bit_and-lt 64 old (2 ^ 64 - 1 - p.old) h))
]

-- Flags are translated exactly when each of them belongs to a pair.
pub flags_to_native_lem :
    (old : ℕ) (ps : List Pair)
    → old < 2 ^ 64
    → All IsPair ps
    → ((flags_to_native old ps).0 ≡ none) ↔ ((k : ℕ) → k < 64 → covered k ps ≡ 0 → bit_at k old ≡ 0)
unfolding flags_to_native
flags_to_native_lem old ps h v =
    let left = (take_flags old 0 ps).1 in
    (
      λ done k hk miss.
          let all : left ≡ 0 = ground (arith, done) in
          omega (
            arith,
            bit_at-take_flags k old 0 ps hk v,
            ap (bit_at k) all,
            bit_at-zero k,
            miss,
            bit_at-low k old,
          ),
      λ cover.
          let all : left ≡ 0 = bits_ext 64 left 0 (take_flags-lt old 0 ps h) (omega arith) (λ k hk.
            ground (
              arith,
              bit_at-take_flags k old 0 ps hk v,
              bit_at-zero k,
              cover k hk,
              bit_at-low k old,
            )) in
          ground (arith, all),
    )

pub bit_at-flags_to_old :
    (k native old : ℕ) (ps : List Pair)
    → bit_at k (flags_to_old_from native old ps) ≤ max (bit_at k old) (covered k ps)
unfolding flags_to_old_from
bit_at-flags_to_old k native old [] = omega arith
bit_at-flags_to_old k native old (p ∷ ps) = elim (Bool-cases (bit_and native p.native == 0)) [
  | inl e ↦ rw e (omega (arith, bit_at-flags_to_old k native old ps))
  | inr e ↦
      rw e (
        omega
          (arith, bit_at-flags_to_old k native (bit_or old p.old) ps, bit_at-bit_or k old p.old))
]

pub flags_to_old-lt :
    (native old : ℕ) (ps : List Pair)
    → old < 2 ^ 64
    → All IsPair ps
    → flags_to_old_from native old ps < 2 ^ 64
unfolding flags_to_old_from
flags_to_old-lt native old [] h v = h
flags_to_old-lt native old (p ∷ ps) h v = elim (Bool-cases (bit_and native p.native == 0)) [
  | inl e ↦ rw e (flags_to_old-lt native old ps h v.1)
  | inr e ↦ rw e (flags_to_old-lt native (bit_or old p.old) ps (bit_or-lt 64 old p.old h v.0) v.1)
]

-- The vendor's flags that stand for native flags are not refused, whatever the pairs.
pub translated_back :
    (native : ℕ) (ps : List Pair)
    → All IsPair ps
    → (flags_to_native (flags_to_old native ps) ps).0 ≡ none
unfolding flags_to_old
translated_back native ps v =
    (flags_to_native_lem (flags_to_old native ps) ps (flags_to_old-lt native 0 ps (omega arith) v)
        v).1
      (λ k h miss. omega (arith, bit_at-flags_to_old k native 0 ps, bit_at-zero k, miss))
