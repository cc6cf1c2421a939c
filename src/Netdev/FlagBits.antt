-- ===== src/Netdev/FlagBits.antt =====
-- The translation of device flags in shim_netdev.c, by tables that pair single bits.
use cudy_wr3600_openwrt.Prelude.{
  All, none, ◌∙◌, Bool, Bool-cases, List, [], ap, arith, false, if◌then◌else◌, inl, inr, ltb, not,
  refl, true, ℕ, ◌&&◌, ◌*◌, ◌-◌, ◌<◌, ◌==◌, ◌^◌, ◌||◌, ◌∷◌, ◌≡◌,
}
use Prim.Native.Nat.{bit_or, bit_and, max}
use native.Mathlib.Nat.{one-le-pow, pow-le-pow_right}
use cudy_wr3600_openwrt.Prelude.Masks.{
  bit_at, bit_at-zero, bit_at-bit_and, bit_at-bit_or, bit_at-low, bit_at-not, bit_at-pow,
  bit_and-pow,
}
use cudy_wr3600_openwrt.Netdev.Flags.{
  translated_back, Pair, IsPair, take_flags, flags_to_native, flags_to_old_from, flags_to_old,
}

-- The numbers of the bits of a pair.
pub record Place : Type 0 where
  pub old_bit : ℕ
  pub native_bit : ℕ

abbrev pub pair_of : Place → Pair
pair_of t = record { old = 2 ^ t.old_bit; native = 2 ^ t.native_bit }

abbrev pub pairs : List Place → List Pair
pairs [] = []
pairs (t ∷ ts) = pair_of t ∷ pairs ts

-- No pair has that bit of the vendor's flags.
abbrev pub lacks : ℕ → List Place → Bool
lacks a [] = true
lacks a (t ∷ ts) = not (t.old_bit == a) && lacks a ts

-- The bits of the vendor's flags are below 64 and different.
abbrev pub are_places : List Place → Bool
are_places [] = true
are_places (t ∷ ts) = ltb t.old_bit 64 && lacks t.old_bit ts && are_places ts

-- A pair has that bit of the native flags.
abbrev pub listed : ℕ → List Place → Bool
listed k [] = false
listed k (t ∷ ts) = (t.native_bit == k) || listed k ts

-- The bit `a` of the vendor's flags for native flags, and the bit `k` of the native flags for the
-- vendor's, from the pairs.
abbrev old_set : ℕ → ℕ → List Place → ℕ
old_set a n [] = 0
old_set a n (t ∷ ts) = max (if t.old_bit == a then bit_at t.native_bit n else 0) (old_set a n ts)

abbrev native_set : ℕ → ℕ → List Place → ℕ
native_set k old [] = 0
native_set k old (t ∷ ts) =
    max (if t.native_bit == k then bit_at t.old_bit old else 0) (native_set k old ts)

no_bit : (j x : ℕ) → (bit_and x (2 ^ j) == 0) ≡ (bit_at j x == 0)
no_bit j x = elim (Bool-cases (bit_at j x == 0)) [
  | inl e ↦
      let off : bit_at j x ≡ 0 = ground (arith, e) in
      ground (arith, e, bit_and-pow j x, ap (λ t. t * 2 ^ j) off)
  | inr e ↦
      let on : bit_at j x ≡ 1 = ground (arith, e, bit_at-low j x) in
      ground (arith, e, bit_and-pow j x, ap (λ t. t * 2 ^ j) on, one-le-pow j 2)
]

bit_at-old :
    (a n o : ℕ) (ts : List Place)
    → bit_at a (flags_to_old_from n o (pairs ts)) ≡ max (bit_at a o) (old_set a n ts)
unfolding flags_to_old_from
bit_at-old a n o [] = omega arith
bit_at-old a n o (t ∷ ts) = elim (Bool-cases (bit_at t.native_bit n == 0)) [
  | inl e ↦
      let test = no_bit t.native_bit n ∙ e in
      rw (test, flags_to_old_from) (ground (arith, bit_at-old a n o ts, e))
  | inr e ↦
      let test = no_bit t.native_bit n ∙ e in
      rw (test, flags_to_old_from)
        (ground (
          arith,
          bit_at-old a n (bit_or o (2 ^ t.old_bit)) ts,
          bit_at-bit_or a o (2 ^ t.old_bit),
          bit_at-pow a t.old_bit,
          bit_at-low t.native_bit n,
          e,
        ))
]

native_set-without :
    (k a old : ℕ) (ts : List Place)
    → a < 64
    → 2 ^ a < 2 ^ 64
    → lacks a ts ≡ true
    → are_places ts ≡ true
    → native_set k (bit_and old (2 ^ 64 - 1 - 2 ^ a)) ts ≡ native_set k old ts
native_set-without k a old [] h p l v = refl
native_set-without k a old (t ∷ ts) h p l v =
    let low : t.old_bit < 64 = ground (arith, v) in
    let kept : bit_at t.old_bit (bit_and old (2 ^ 64 - 1 - 2 ^ a)) ≡ bit_at t.old_bit old = ground (
      arith,
      bit_at-bit_and t.old_bit old (2 ^ 64 - 1 - 2 ^ a),
      bit_at-not t.old_bit 64 (2 ^ a) low p,
      bit_at-pow t.old_bit a,
      bit_at-low t.old_bit old,
      l,
    ) in
    let rest = native_set-without k a old ts h p (ground (arith, l)) (ground (arith, v)) in
    ground (arith, kept, rest)

pow_fits : (a : ℕ) → a < 64 → 2 ^ a < 2 ^ 64
pow_fits a h =
    omega (arith, pow-le-pow_right {n = 2} (omega arith) {i = a} {j = 63} (omega (arith, h)))

bit_at-native :
    (k old native : ℕ) (ts : List Place)
    → are_places ts ≡ true
    → bit_at k (take_flags old native (pairs ts)).0 ≡ max (bit_at k native) (native_set k old ts)
unfolding take_flags
bit_at-native k old native [] v = omega arith
bit_at-native k old native (t ∷ ts) v = elim (Bool-cases (bit_at t.old_bit old == 0)) [
  | inl e ↦
      let test = no_bit t.old_bit old ∙ e in
      rw (test, take_flags) (ground (arith, bit_at-native k old native ts (ground (arith, v)), e))
  | inr e ↦
      let test = no_bit t.old_bit old ∙ e in
      let low : t.old_bit < 64 = ground (arith, v) in
      let later =
        bit_at-native k (bit_and old (2 ^ 64 - 1 - 2 ^ t.old_bit))
          (bit_or native (2 ^ t.native_bit)) ts (ground (arith, v)) in
      let kept =
        native_set-without k t.old_bit old ts low (pow_fits t.old_bit low) (ground (arith, v))
          (ground (arith, v)) in
      rw (test, take_flags)
        (ground (
          arith,
          later,
          kept,
          bit_at-bit_or k native (2 ^ t.native_bit),
          bit_at-pow k t.native_bit,
          bit_at-low t.old_bit old,
          e,
        ))
]

-- Each pair's bit of the vendor's flags is its bit of the native ones.
abbrev Carries : ℕ → List Place → Place → Type 0
Carries n ts u = old_set u.old_bit n ts ≡ bit_at u.native_bit n

Carries-later :
    (n : ℕ) (t : Place) (ts us : List Place)
    → lacks t.old_bit us ≡ true
    → All (Carries n ts) us
    → All (Carries n (t ∷ ts)) us
Carries-later n t ts [] l h = tt
Carries-later n t ts (u ∷ us) l h =
    (ground (arith, l, h.0), Carries-later n t ts us (ground (arith, l)) h.1)

old_set-lacks : (a n : ℕ) (ts : List Place) → lacks a ts ≡ true → old_set a n ts ≡ 0
old_set-lacks a n [] l = refl
old_set-lacks a n (t ∷ ts) l = ground (arith, l, old_set-lacks a n ts (ground (arith, l)))

Carries-places : (n : ℕ) (ts : List Place) → are_places ts ≡ true → All (Carries n ts) ts
Carries-places n [] v = tt
Carries-places n (t ∷ ts) v = (
  ground (arith, old_set-lacks t.old_bit n ts (ground (arith, v))),
  Carries-later n t ts ts (ground (arith, v)) (Carries-places n ts (ground (arith, v))),
)

native_set-listed :
    (k n old : ℕ) (ts : List Place)
    → All (λ u. bit_at u.old_bit old ≡ bit_at u.native_bit n) ts
    → native_set k old ts ≡ (if listed k ts then bit_at k n else 0)
native_set-listed k n old [] h = refl
native_set-listed k n old (t ∷ ts) h = elim (Bool-cases (t.native_bit == k)) [
  | inl e ↦
      let is : t.native_bit ≡ k = ground (arith, e) in
      ground (arith, e, h.0, native_set-listed k n old ts h.1, ap (λ m. bit_at m n) is)
  | inr e ↦ ground (arith, e, native_set-listed k n old ts h.1)
]

IsPair-pairs : (ts : List Place) → are_places ts ≡ true → All IsPair (pairs ts)
IsPair-pairs [] v = tt
IsPair-pairs (t ∷ ts) v =
    (pow_fits t.old_bit (ground (arith, v)), IsPair-pairs ts (ground (arith, v)))

All-carried :
    (n old : ℕ) (ts us : List Place)
    → ((a : ℕ) → bit_at a old ≡ old_set a n ts)
    → All (Carries n ts) us
    → All (λ u. bit_at u.old_bit old ≡ bit_at u.native_bit n) us
All-carried n old ts [] h c = tt
All-carried n old ts (u ∷ us) h c = (h u.old_bit ∙ c.0, All-carried n old ts us h c.1)

-- By a table that pairs single bits, with different bits below 64 of the vendor's flags, native flags
-- that are translated to the vendor's and back are accepted, and come back without those that no pair has.
pub flags_to_native-flags_to_old :
    (n : ℕ) (ts : List Place)
    → are_places ts ≡ true
    → ((flags_to_native (flags_to_old n (pairs ts)) (pairs ts)).0 ≡ none)
      × ((k : ℕ)
          → bit_at k (flags_to_native (flags_to_old n (pairs ts)) (pairs ts)).1
            ≡ (if listed k ts then bit_at k n else 0))
unfolding flags_to_native flags_to_old
flags_to_native-flags_to_old n ts v =
    let old = flags_to_old_from n 0 (pairs ts) in
    let bits : (a : ℕ) → bit_at a old ≡ old_set a n ts =
      λ a. omega (arith, bit_at-old a n 0 ts, bit_at-zero a) in
    let carried = All-carried n old ts ts bits (Carries-places n ts v) in
    (
      translated_back n (pairs ts) (IsPair-pairs ts v),
      λ k.
          omega (
            arith,
            bit_at-native k old 0 ts v,
            native_set-listed k n old ts carried,
            bit_at-zero k,
          ),
    )
