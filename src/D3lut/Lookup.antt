-- ===== src/D3lut/Lookup.antt =====
-- wl_compat.c's dictionary as a map from a pool and an address to the newest element.
use cudy_wr3600_openwrt.Prelude.{
  ◌++◌, ==_iff, lt_of_get_elem?, ◌∙◌, Bool-cases, Option-cases, get_elem?, get_elem?-set, granted,
  inl, inr, length, set, ◌<◌, ◌==◌, ◌≢◌, List, Option, [], arith, if◌then◌else◌, none, refl, some,
  str_eq, str_eq_iff, sym, ℕ, ◌∷◌, ◌≡◌,
}
use mathlib.Core.Path.{subst}
use cudy_wr3600_openwrt.D3lut.{
  Elem, Pool, Table, any_pool, pool_ins, ins, find, find_any, lkup, unlink, pool_del, del,
}

find-cons :
    (j : List ℕ) (e : Elem) (es : List Elem)
    → find j (e ∷ es) ≡ (if str_eq e.sym j then some e else find j es)
unfolding find
find-cons j e es = refl

-- The elements that a lookup of `j` in a list would go through.
pub matches : List ℕ → List Elem → List Elem
matches j [] = []
matches j (e ∷ es) = let rest = matches j es in if str_eq e.sym j then e ∷ rest else rest

abbrev pub tail_of : List Elem → List Elem
tail_of [] = []
tail_of (e ∷ es) = es

abbrev pub head_of : List Elem → Option Elem
head_of [] = none
head_of (e ∷ es) = some e

find-matches : (j : List ℕ) (es : List Elem) → find j es ≡ head_of (matches j es)
unfolding find matches
find-matches j [] = refl
find-matches j (e ∷ es) = ground (arith, find-matches j es)

-- Unlinking takes away the newest element of that address and no other.
unlink-matches :
    (sym j : List ℕ) (es : List Elem)
    → elim (unlink sym es) [ none ↦ matches j es | some rest ↦ matches j rest ]
      ≡ (if str_eq sym j then tail_of (matches j es) else matches j es)
unfolding unlink matches
unlink-matches sym j [] = ground arith
unlink-matches sym j (e ∷ es) =
    ground
      (arith, unlink-matches sym j es, str_eq_iff sym j, str_eq_iff e.sym j, str_eq_iff e.sym sym)

-- The elements of address `j` in a pool, newest first.
abbrev pub in_pool : List ℕ → Option Pool → List Elem
in_pool j none = []
in_pool j (some p) = matches j p.elems

abbrev pub bucket : ℕ → List ℕ → Table → List Elem
bucket pool j t = in_pool j (get_elem? t.pools pool)

-- A lookup in one pool answers with the newest element of that address.
pub lkup-bucket :
    (j : List ℕ) (pool : ℕ) (t : Table)
    → pool ≢ any_pool
    → lkup (some j) pool t ≡ head_of (bucket pool j t)
unfolding lkup
lkup-bucket j pool t h = elim (Option-cases (get_elem? t.pools pool)) [
  | inl out ↦ ground arith
  | inr (p, at) ↦ ground (arith, find-matches j p.elems)
]

-- Writing one pool changes the buckets of that pool only.
bucket-set :
    (ps : List Pool) (i q : ℕ) (j : List ℕ) (p : Pool)
    → i < length ps
    → in_pool j (get_elem? (set ps i p) q)
      ≡ (if i == q then matches j p.elems else in_pool j (get_elem? ps q))
bucket-set ps i q j p h = elim (Bool-cases (i == q)) [
  | inl here ↦ rw (get_elem?-set ps i q p h, here)
  | inr there ↦ rw (get_elem?-set ps i q p h, there)
]

pool_ins-elems :
    (s addr : ℕ) (sym : List ℕ) (p : Pool) (e : Elem) (q : Pool)
    → pool_ins s addr sym p ≡ some (e, q)
    → (q.elems ≡ e ∷ p.elems) × (e.sym ≡ sym)
unfolding pool_ins
pool_ins-elems s addr sym p e q h = ground arith

matches-cons :
    (j : List ℕ) (e : Elem) (es : List Elem)
    → matches j (e ∷ es) ≡ (if str_eq e.sym j then e ∷ matches j es else matches j es)
unfolding matches
matches-cons j e es = ground arith

-- The write of a pool that got the element `e` in front.
front_written :
    (ps : List Pool) (pool q : ℕ) (j sym : List ℕ) (p p' : Pool) (e : Elem)
    → get_elem? ps pool ≡ some p
    → p'.elems ≡ e ∷ p.elems
    → e.sym ≡ sym
    → (if pool == q then matches j p'.elems else in_pool j (get_elem? ps q)) ≡ (
        if pool == q
        then if str_eq sym j then e ∷ in_pool j (get_elem? ps q) else in_pool j (get_elem? ps q)
        else in_pool j (get_elem? ps q))
front_written ps pool q j sym p p' e at linked named = elim (Bool-cases (pool == q)) [
  | inr there ↦ rw there
  | inl here ↦
      let at_q : get_elem? ps q ≡ some p =
        subst (λ k. get_elem? ps k ≡ some p) ((==_iff pool q).0 here) at in
      rw (here, linked, at_q, matches-cons, named)
]

-- What an insertion did to the bucket of `j` in pool `q`.
abbrev pub Inserted : List ℕ → ℕ → Table → ℕ → List ℕ → Option Elem × Table → Type 0
Inserted sym pool t q j (none, t') = bucket q j t' ≡ bucket q j t
Inserted sym pool t q j (some e, t') =
    (e.sym ≡ sym)
    × (bucket q j t' ≡ (
        if pool == q
        then if str_eq sym j then e ∷ bucket q j t else bucket q j t
        else bucket q j t))

-- An insertion either fails and changes no bucket, or puts its element, with the given address, in
-- front of its own bucket and leaves every other bucket alone.
pub ins-bucket :
    (sym : List ℕ) (pool policy : ℕ) (t : Table) (q : ℕ) (j : List ℕ)
    → Inserted sym pool t q j (ins (some sym) pool policy t)
unfolding ins
ins-bucket sym pool policy t q j = elim (Option-cases (get_elem? t.pools pool)) [
  | inl out ↦ rw (out, ins) refl
  | inr (p, at) ↦ elim (Bool-cases (granted t.mem)) [
    | inr refused ↦ rw (at, ins, refused) refl
    | inl given ↦ elim (Option-cases (pool_ins pool t.mem.asked sym p)) [
      | inl full ↦ rw (at, ins, given, full) refl
      | inr ((e, p'), room) ↦
          let (linked, named) = pool_ins-elems pool t.mem.asked sym p e p' room in
          rw (at, ins, given, room)
            (
              named,
              bucket-set t.pools pool q j p' (lt_of_get_elem? t.pools pool at)
                  ∙ front_written t.pools pool q j sym p p' e at linked named,
            )
    ]
  ]
]

-- The buckets once pool `pool` answers `m` for `j`.
popped :
    (ps : List Pool) (pool q : ℕ) (j sym : List ℕ) (o : Option Pool) (m : List Elem)
    → get_elem? ps pool ≡ o
    → m ≡ (if str_eq sym j then tail_of (in_pool j o) else in_pool j o)
    → (if pool == q then m else in_pool j (get_elem? ps q)) ≡ (
        if pool == q
        then if str_eq sym j
          then tail_of (in_pool j (get_elem? ps q))
          else in_pool j (get_elem? ps q)
        else in_pool j (get_elem? ps q))
popped ps pool q j sym o m at e = elim (Bool-cases (pool == q)) [
  | inr there ↦ rw there
  | inl here ↦
      let at_q : get_elem? ps q ≡ o = subst (λ k. get_elem? ps k ≡ o) ((==_iff pool q).0 here) at in
      rw (here, at_q) e
]

unchanged :
    (ps : List Pool) (pool q : ℕ) (j : List ℕ) (o : Option Pool)
    → get_elem? ps pool ≡ o
    → in_pool j (get_elem? ps q) ≡ (if pool == q then in_pool j o else in_pool j (get_elem? ps q))
unchanged ps pool q j o at = elim (Bool-cases (pool == q)) [
  | inr there ↦ rw there
  | inl here ↦
      let at_q : get_elem? ps q ≡ o = subst (λ k. get_elem? ps k ≡ o) ((==_iff pool q).0 here) at in
      rw (here, at_q)
]

-- A deletion takes the newest element of its own bucket away and leaves every other bucket alone.
pub del-bucket :
    (sym : List ℕ) (pool : ℕ) (t : Table) (q : ℕ) (j : List ℕ)
    → bucket q j (del (some sym) pool t) ≡ (
        if pool == q
        then if str_eq sym j then tail_of (bucket q j t) else bucket q j t
        else bucket q j t)
unfolding del pool_del
del-bucket sym pool t q j = elim (Option-cases (get_elem? t.pools pool)) [
  | inl out ↦
      rw (out, del)
        (unchanged t.pools pool q j none out
          ∙ popped t.pools pool q j sym none [] out (ground arith))
  | inr (p, at) ↦ elim (Option-cases (unlink sym p.elems)) [
    | inl missing ↦
        rw (at, del, pool_del, missing)
          (unchanged t.pools pool q j (some p) at
            ∙ popped t.pools pool q j sym (some p) (matches j p.elems) at
                (ground (arith, missing, unlink-matches sym j p.elems)))
    | inr (es, found) ↦
        rw (at, del, pool_del, found)
          (bucket-set t.pools pool q j _ (lt_of_get_elem? t.pools pool at)
            ∙ popped t.pools pool q j sym (some p) (matches j es) at
                (ground (arith, found, unlink-matches sym j p.elems)))
  ]
]

-- The elements of address `j` in all pools, pool by pool.
pub matches_any : List ℕ → List Pool → List Elem
matches_any j [] = []
matches_any j (p ∷ ps) = matches j p.elems ++ matches_any j ps

head_of-append :
    (xs ys : List Elem)
    → head_of (xs ++ ys) ≡ (elim (head_of xs) [ none ↦ head_of ys | some e ↦ some e ])
head_of-append [] ys = refl
head_of-append (x ∷ xs) ys = refl

find_any-matches : (j : List ℕ) (ps : List Pool) → find_any j ps ≡ head_of (matches_any j ps)
unfolding find_any matches_any
find_any-matches j [] = refl
find_any-matches j (p ∷ ps) = ground (
  arith,
  find_any-matches j ps,
  find-matches j p.elems,
  head_of-append (matches j p.elems) (matches_any j ps),
)

-- A lookup in every pool answers with the newest element of that address in the lowest pool that
-- has one.
pub lkup_any : (j : List ℕ) (t : Table) → lkup (some j) any_pool t ≡ head_of (matches_any j t.pools)
unfolding lkup
lkup_any j t = find_any-matches j t.pools
