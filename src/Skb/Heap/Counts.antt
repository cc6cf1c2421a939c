-- ===== src/Skb/Heap/Counts.antt =====
-- The counts of shared data blocks in shim_skb.c.
use cudy_wr3600_openwrt.Prelude.{
  set, ap, false, length, suc, zero, ◌-◌, List, Option, [], arith, get_elem?, if◌then◌else◌, none,
  not, some, sum_of, sum_of-set, ℕ, ◌&&◌, ◌++◌, ◌+◌, ◌<◌, ◌==◌, ◌^◌, ◌∷◌, ◌≡◌, ◌≤◌, ◌⊎◌,
}
use mathlib.Core.Option.{some-injective}
use cudy_wr3600_openwrt.Skb.Heap.{Head, Heap}

-- Whether a descriptor refers to block `b`, as an unshared one and as a clone.
abbrev pub sole_ref : ℕ → Option Head → ℕ
sole_ref b none = 0
sole_ref b (some h) = if h.block == b && not h.view.cloned then 1 else 0

abbrev pub clone_ref : ℕ → Option Head → ℕ
clone_ref b none = 0
clone_ref b (some h) = if h.block == b && h.view.cloned then 1 else 0

abbrev pub has_nohdr : Option Head → ℕ
has_nohdr none = 0
has_nohdr (some h) = if h.nohdr then 1 else 0

-- Each block's count is the number of descriptors that refer to it, and one that is not marked as
-- cloned has its block to itself. The payload bit of the vendor's kernel is not in use.
pub record IsHeap (s : Heap) : Type 0 where
  pub counted : (b : ℕ) → s.dataref b ≡ sum_of (sole_ref b) s.heads + sum_of (clone_ref b) s.heads
  pub alone : (b : ℕ) → (sum_of (sole_ref b) s.heads ≡ 0) ⊎ (s.dataref b ≡ 1)
  pub plain : sum_of has_nohdr s.heads ≡ 0
  pub unused : (b : ℕ) → s.fresh ≤ b → s.dataref b ≡ 0

pub sum_of-append {ℓ} :
    {A : Type ℓ} (f : A → ℕ) (xs ys : List A) → sum_of f (xs ++ ys) ≡ sum_of f xs + sum_of f ys
sum_of-append f [] ys = omega arith
sum_of-append f (x ∷ xs) ys = omega (arith, sum_of-append f xs ys)

pub at_least {ℓ} :
    {A : Type ℓ} (f : A → ℕ) (xs : List A) (i : ℕ) (x : A)
    → get_elem? xs i ≡ some x
    → f x ≤ sum_of f xs
at_least f [] i x e = absurd (ground arith)
at_least f (y ∷ ys) zero x e = omega (arith, ap f (some-injective _ _ e))
at_least f (y ∷ ys) (suc i) x e = omega (arith, at_least f ys i x e)

-- Every descriptor refers to one block at most.
refs-length :
    (b : ℕ) (os : List (Option Head)) → sum_of (sole_ref b) os + sum_of (clone_ref b) os ≤ length os
refs-length b [] = omega arith
refs-length b (none ∷ os) = omega (arith, refs-length b os)
refs-length b (some h ∷ os) = ground (arith, refs-length b os)

-- What one descriptor contributes to a block that is its own, or another.
abbrev pub Facts : ℕ → Head → Heap → Type 0
Facts b h s =
    (s.dataref b ≡ sum_of (sole_ref b) s.heads + sum_of (clone_ref b) s.heads)
    × ((sum_of (sole_ref b) s.heads ≡ 0) ⊎ (s.dataref b ≡ 1))
    × (sole_ref b (some h) ≤ sum_of (sole_ref b) s.heads)
    × (clone_ref b (some h) ≤ sum_of (clone_ref b) s.heads)
    × (s.dataref b < 2 ^ 32 - 1)
    × (h.nohdr ≡ false)

pub facts :
    (i : ℕ) (h : Head) (s : Heap) (b : ℕ)
    → IsHeap s
    → get_elem? s.heads i ≡ some (some h)
    → length s.heads < 2 ^ 32 - 1
    → Facts b h s
facts i h s b v at small = (
  v.counted b,
  v.alone b,
  at_least (sole_ref b) s.heads i (some h) at,
  at_least (clone_ref b) s.heads i (some h) at,
  omega (arith, v.counted b, refs-length b s.heads),
  ground (arith, at_least has_nohdr s.heads i (some h) at, v.plain),
)

-- A write and a new element at the end.
pub sum_of-joined {ℓ} :
    {A : Type ℓ} (f : A → ℕ) (xs : List A) (i : ℕ) {old : A} (w dst : A)
    → get_elem? xs i ≡ some old
    → sum_of f (set xs i w ++ (dst ∷ [])) + f old ≡ sum_of f xs + f w + f dst
sum_of-joined f xs i w dst e =
    omega (arith, sum_of-append f (set xs i w) (dst ∷ []), sum_of-set f xs i w e)
