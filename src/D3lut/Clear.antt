-- ===== src/D3lut/Clear.antt =====
-- `d3lut_clr` of wl_compat.c: which elements it frees, and that its in-place unlinking loop is a filter.
use cudy_wr3600_openwrt.Prelude.{
  false, suc, true, All, Bool, Bool-cases, List, Memory, [], ap, arith, free_one, if◌then◌else◌,
  inl, inr, length, map, refl, sum_of, ℕ, ◌%◌, ◌+◌, ◌-◌, ◌<◌, ◌^◌, ◌∷◌, ◌≡◌, ◌≤◌,
}
use cudy_wr3600_openwrt.D3lut.{Elem, Pool, Table, clears, clear_list, clear_pools, clr}
use cudy_wr3600_openwrt.D3lut.Valid.{IsPool, IsValid, stored}

-- The elements that the test spares, in order.
pub kept : ℕ → Bool → List Elem → List Elem
kept ext ignore [] = []
kept ext ignore (e ∷ es) =
    let rest = kept ext ignore es in if clears ext ignore e then rest else e ∷ rest

length-kept : (ext : ℕ) (ignore : Bool) (es : List Elem) → length (kept ext ignore es) ≤ length es
unfolding kept
length-kept ext ignore [] = omega arith
length-kept ext ignore (e ∷ es) = ground (arith, length-kept ext ignore es)

-- `k` and `m` are what the count and the allocations hold besides this list.
clear_list_lem :
    (ext : ℕ) (ignore : Bool) (es : List Elem) (k m : ℕ) (count : ℕ) (mem : Memory)
    → count ≡ k + length es
    → count < 2 ^ 32
    → mem.live ≡ m + length es
    → let r = clear_list ext ignore es count mem in
      (r.0 ≡ kept ext ignore es)
      × (r.1 ≡ k + length (kept ext ignore es))
      × (r.2.live ≡ m + length (kept ext ignore es))
unfolding clear_list kept
clear_list_lem ext ignore [] k m count mem c small a = (refl, c, a)
clear_list_lem ext ignore (e ∷ es) k m count mem c small a =
    elim (Bool-cases (clears ext ignore e)) [
      | inl gone ↦
          rw (gone, clear_list)
            (clear_list_lem ext ignore es k m ((count + 2 ^ 32 - 1) % 2 ^ 32) (free_one mem)
              (omega arith) (omega arith) (omega arith))
      | inr stays ↦
          let (l, n, b) =
            clear_list_lem ext ignore es (k + 1) (m + 1) count mem (omega arith) small
              (omega arith) in
          rw (stays, clear_list) (ap (λ r. e ∷ r) l, omega (arith, n), omega (arith, b))
    ]

-- What a pool is left with.
abbrev pub cleared : ℕ → Bool → Pool → Pool
cleared ext ignore p = record p {
  elems = kept ext ignore p.elems;
  count = length (kept ext ignore p.elems);
}

cleared-IsPool : (ext : ℕ) (ignore : Bool) (p : Pool) → IsPool p → IsPool (cleared ext ignore p)
cleared-IsPool ext ignore p v = record {
  counted = refl;
  bounded = omega (arith, length-kept ext ignore p.elems, v.bounded);
  index = v.index;
  incarnation = v.incarnation;
}

clear_pools_lem :
    (ext : ℕ) (ignore : Bool) (ps : List Pool) (m : ℕ) (mem : Memory)
    → All IsPool ps
    → mem.live ≡ m + sum_of stored ps
    → let r = clear_pools ext ignore ps mem in
      (r.0 ≡ map (cleared ext ignore) ps)
      × (r.1.live ≡ m + sum_of stored (map (cleared ext ignore) ps))
unfolding clear_pools
clear_pools_lem ext ignore [] m mem v a = (refl, a)
clear_pools_lem ext ignore (p ∷ ps) m mem v a =
    let (l, n, b) =
      clear_list_lem ext ignore p.elems 0 (m + sum_of stored ps) p.count mem
        (omega (arith, v.0.counted)) (omega (arith, v.0.counted, v.0.bounded)) (omega arith) in
    let (ls, bs) =
      clear_pools_lem ext ignore ps (m + length (kept ext ignore p.elems))
        (clear_list ext ignore p.elems p.count mem).2 v.1 (omega (arith, b)) in
    let n' : (clear_list ext ignore p.elems p.count mem).1 ≡ length (kept ext ignore p.elems) =
      omega (arith, n) in
    (rw (l, n', ls), omega (arith, bs))

kept_spared :
    (ext : ℕ) (ignore : Bool) (es : List Elem)
    → All (λ e. clears ext ignore e ≡ false) (kept ext ignore es)
unfolding kept
kept_spared ext ignore [] = tt
kept_spared ext ignore (e ∷ es) = elim (Bool-cases (clears ext ignore e)) [
  | inl gone ↦ rw (gone, kept) (kept_spared ext ignore es)
  | inr stays ↦ rw (stays, kept) (stays, kept_spared ext ignore es)
]

kept_all : (ext : ℕ) (es : List Elem) → kept ext true es ≡ []
unfolding kept
kept_all ext [] = refl
kept_all ext (e ∷ es) = kept_all ext es

length-map {ℓ κ} :
    {A : Type ℓ} {B : Type κ} (f : A → B) (xs : List A) → length (map f xs) ≡ length xs
length-map f [] = refl
length-map f (x ∷ xs) = ap suc (length-map f xs)

cleared-pools :
    (ext : ℕ) (ignore : Bool) (ps : List Pool)
    → All IsPool ps
    → All IsPool (map (cleared ext ignore) ps)
cleared-pools ext ignore [] v = tt
cleared-pools ext ignore (p ∷ ps) v =
    (cleared-IsPool ext ignore p v.0, cleared-pools ext ignore ps v.1)

-- Clearing a valid dictionary leaves a valid one, in which each pool holds, in order, exactly the
-- elements whose interface and device differ from `ext` (none at all where the match is ignored);
-- policy, next index and incarnation stay.
pub clr_lem :
    (ext : ℕ) (ignore : Bool) (t : Table)
    → IsValid t
    → IsValid (clr ext ignore t) × ((clr ext ignore t).pools ≡ map (cleared ext ignore) t.pools)
unfolding clr
clr_lem ext ignore t v =
    let (ps, live) =
      clear_pools_lem ext ignore t.pools 0 t.mem v.pools (omega (arith, v.accounted)) in
    (
      record {
        five = rw (ps, length-map) v.five;
        pools = rw ps (cleared-pools ext ignore t.pools v.pools);
        accounted = rw ps (omega (arith, live));
      },
      ps,
    )
