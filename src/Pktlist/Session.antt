-- ===== src/Pktlist/Session.antt =====
-- The allocations behind the pktlist contexts of wl_compat.c.
use cudy_wr3600_openwrt.Prelude.{
  Option-cases, suc, sym, zero, ◌∙◌, refl, ◌*◌, ◌≢◌, ◌≤◌, Bool-cases, List, [], ap, arith,
  if◌then◌else◌, inl, inr, sum_of, ℕ, ◌+◌, ◌-◌, ◌<◌, ◌==◌, ◌∷◌, ◌≡◌,
}
use mathlib.Core.Path.{subst}
use cudy_wr3600_openwrt.Pktlist.Context.{
  Context, Args, Track, Pktlists, Allocs, fill_context, release, context_init_with, context_init,
  untrack, context_fini, zeroed, init_elem, init_dests, init_prios, prio_max, dest_max,
}
use cudy_wr3600_openwrt.Pktlist.Ring.{IsFilled, fill_context-IsFilled}

-- How often an address is in a list.
abbrev pub one_if : ℕ → ℕ → ℕ
one_if p q = if q == p then 1 else 0

abbrev pub times : ℕ → List ℕ → ℕ
times p heap = sum_of (one_if p) heap

-- What a track holds at an address: itself, its context and the table of it.
abbrev pub held : (ℕ → Context) → ℕ → Track → ℕ
held contexts p t = one_if p t.address + one_if p t.ctx + one_if p (contexts t.ctx).table

release-times :
    (p q : ℕ) (heap : List ℕ) → times q (release p heap) ≡ times q heap - (if p == q then 1 else 0)
unfolding release
release-times p q [] = ground arith
release-times p q (r ∷ heap) = ground (arith, release-times p q heap)

untrack-held :
    (ctx p : ℕ) (contexts : ℕ → Context) (ts : List Track)
    → 0 < sum_of (λ t. one_if ctx t.ctx) ts
    → sum_of (held contexts p) (untrack ctx ts).1
        + (one_if p (untrack ctx ts).0 + one_if p ctx + one_if p (contexts ctx).table)
      ≡ sum_of (held contexts p) ts
unfolding untrack
untrack-held ctx p contexts [] h = absurd (omega (arith, h))
untrack-held ctx p contexts (t ∷ ts) h = elim (Bool-cases (t.ctx == ctx)) [
  | inl e ↦
      let same : t.ctx ≡ ctx = ground (arith, e) in
      let table = ap (λ c. one_if p (contexts c).table) same in
      let here = ap (one_if p) same in rw e (omega (arith, table, here))
  | inr e ↦ rw e (omega (arith, untrack-held ctx p contexts ts (ground (arith, h, e))))
]

untrack-fewer :
    (ctx p : ℕ) (ts : List Track)
    → sum_of (λ t. one_if p t.ctx) (untrack ctx ts).1 ≤ sum_of (λ t. one_if p t.ctx) ts
unfolding untrack
untrack-fewer ctx p [] = omega arith
untrack-fewer ctx p (t ∷ ts) = elim (Bool-cases (t.ctx == ctx)) [
  | inl e ↦ rw e (omega arith)
  | inr e ↦ rw e (omega (arith, untrack-fewer ctx p ts))
]

ctx_held :
    (p : ℕ) (contexts : ℕ → Context) (ts : List Track)
    → sum_of (λ t. one_if p t.ctx) ts ≤ sum_of (held contexts p) ts
ctx_held p contexts [] = omega arith
ctx_held p contexts (t ∷ ts) = omega (arith, ctx_held p contexts ts)

abbrev put_context : ℕ → Context → (ℕ → Context) → ℕ → Context
put_context ctx made contexts = λ p. if ctx == p then made else contexts p

held_elsewhere :
    (ctx p : ℕ) (made : Context) (contexts : ℕ → Context) (ts : List Track)
    → sum_of (λ t. one_if ctx t.ctx) ts ≡ 0
    → sum_of (held (put_context ctx made contexts) p) ts ≡ sum_of (held contexts p) ts
held_elsewhere ctx p made contexts [] h = refl
held_elsewhere ctx p made contexts (t ∷ ts) h = elim (Bool-cases (ctx == t.ctx)) [
  | inl e ↦ absurd (ground (arith, h, e))
  | inr e ↦
      rw e
        (ap (λ n. held contexts p t + n) (held_elsewhere ctx p made contexts ts (omega (arith, h))))
]

release_top : (p : ℕ) (heap : List ℕ) → release p (p ∷ heap) ≡ heap
unfolding release
release_top p heap = ground arith

-- What is allocated is what the instances hold, once each, and their contexts are filled.
pub record IsTracked (s : Pktlists) : Type 0 where
  pub counted : (p : ℕ) → times p s.heap ≡ sum_of (held s.contexts p) s.instances
  pub single : (p : ℕ) → times p s.heap ≤ 1
  pub null : times 0 s.heap ≡ 0
  pub filled :
      (p : ℕ)
      → 0 < sum_of (λ t. one_if p t.ctx) s.instances
      → IsFilled (prio_max * dest_max) prio_max (s.contexts p)

-- The answers of the allocator that are not NULL are new.
abbrev pub IsNew : Allocs → List ℕ → Type 0
IsNew m heap =
    (m.ctx ≢ 0 → times m.ctx heap ≡ 0)
    × (m.table ≢ 0 → times m.table (m.ctx ∷ heap) ≡ 0)
    × (m.track ≢ 0 → times m.track (m.table ∷ m.ctx ∷ heap) ≡ 0)

init_dests-table : (count prio : ℕ) (c : Context) → (init_dests count prio c).table ≡ c.table
unfolding init_dests init_elem
init_dests-table zero prio c = refl
init_dests-table (suc count) prio c = init_dests-table count prio c

init_prios-table : (count : ℕ) (c : Context) → (init_prios count c).table ≡ c.table
unfolding init_prios
init_prios-table zero c = refl
init_prios-table (suc prio) c = init_dests-table dest_max prio _ ∙ init_prios-table prio c

fill_context-table :
    (a : Args) (name : List ℕ) (table : ℕ) → (fill_context a name table).table ≡ table
unfolding fill_context
fill_context-table a name table = init_prios-table prio_max _

made-IsTracked :
    (a : Args) (name : List ℕ) (m : Allocs) (s : Pktlists)
    → m.ctx ≢ 0
    → m.table ≢ 0
    → m.track ≢ 0
    → IsNew m s.heap
    → IsTracked s
    → IsTracked (record {
      heap = m.track ∷ m.table ∷ m.ctx ∷ s.heap;
      contexts = put_context m.ctx (fill_context a name m.table) s.contexts;
      instances = (record { address = m.track; ctx = m.ctx }) ∷ s.instances;
    })
made-IsTracked a name m s hc ht hk (new_ctx, new_table, new_track) v =
    let unseen : sum_of (λ t. one_if m.ctx t.ctx) s.instances ≡ 0 =
      omega (arith, ctx_held m.ctx s.contexts s.instances, v.counted m.ctx, new_ctx hc) in
    record {
      counted = λ p.
          let table = fill_context-table a name m.table in
          let elsewhere =
            held_elsewhere m.ctx p (fill_context a name m.table) s.contexts s.instances unseen in
          let mine : (put_context m.ctx (fill_context a name m.table) s.contexts m.ctx).table
              ≡ m.table =
            ground (arith, table) in
          omega (arith, elsewhere, v.counted p, ap (one_if p) mine);
      single = λ p. ground (arith, v.single p, new_ctx hc, new_table ht, new_track hk);
      null = ground (arith, v.null, hc, ht, hk);
      filled = λ p h. elim (Bool-cases (m.ctx == p)) [
        | inl e ↦ rw e (fill_context-IsFilled a name m.table).0
        | inr e ↦ rw e (v.filled p (ground (arith, h, e)))
      ];
    }

init_with-IsTracked :
    (a : Args) (name : List ℕ) (m : Allocs) (s : Pktlists)
    → IsNew m s.heap
    → IsTracked s
    → IsTracked (context_init_with a name m s).1
unfolding context_init_with
init_with-IsTracked a name m s new v = elim (Bool-cases (m.ctx == 0)) [
  | inl e ↦ rw e v
  | inr e ↦ rw e (elim (Bool-cases (m.table == 0)) [
    | inl f ↦
        rw f (subst (λ h. IsTracked (record s { heap = h })) (sym (release_top m.ctx s.heap)) v)
    | inr f ↦ rw f (elim (Bool-cases (m.track == 0)) [
      | inl g ↦
          let tables = release_top m.table (m.ctx ∷ s.heap) in
          let ctxs = release_top m.ctx s.heap in
          let freed = ap (release m.ctx) tables ∙ ctxs in
          rw g (subst (λ h. IsTracked (record s { heap = h })) (sym freed) v)
      | inr g ↦ rw g (
          made-IsTracked a name m s (λ z. ground (arith, e, z)) (λ z. ground (arith, f, z))
            (λ z. ground (arith, g, z)) new v)
    ])
  ])
]

init-IsTracked :
    (a : Args) (m : Allocs) (s : Pktlists)
    → IsNew m s.heap
    → IsTracked s
    → IsTracked (context_init a m s).1
unfolding context_init context_init_with fill_context
init-IsTracked a m s new v = elim (Option-cases a.driver_name) [
  | inl e ↦ rw e v
  | inr (name, e) ↦ rw e (elim (Bool-cases (a.driver == 0)) [
    | inl f ↦ rw f v
    | inr f ↦ rw f (init_with-IsTracked a name m s new v)
  ])
]

fini-IsTracked :
    (ctx : ℕ) (s : Pktlists)
    → ctx ≢ 0
    → 0 < sum_of (λ t. one_if ctx t.ctx) s.instances
    → IsTracked s
    → IsTracked (context_fini ctx s)
unfolding context_fini
fini-IsTracked ctx s h tracked v =
    let out = untrack ctx s.instances in
    let holds : (p : ℕ) → _ = λ p. untrack-held ctx p s.contexts s.instances tracked in
    let nonnull : out.0 ≢ 0 = λ z. ground (arith, holds 0, v.counted 0, v.null, z) in
    let table : ℕ = (s.contexts ctx).table in
    let first : List ℕ = release out.0 s.heap in
    let left : (p : ℕ)
        → times p (release ctx (release table first)) ≡ sum_of (held s.contexts p) out.1 =
      λ p. ground (
        arith,
        release-times out.0 p s.heap,
        release-times table p first,
        release-times ctx p (release table first),
        holds p,
        v.counted p,
      ) in
    let w : IsTracked (record s { heap = release ctx (release table first); instances = out.1 }) =
      record {
        counted = left;
        single = λ p. omega (arith, left p, holds p, v.counted p, v.single p);
        null = omega (arith, left 0, holds 0, v.counted 0, v.null);
        filled = λ p k. v.filled p (omega (arith, k, untrack-fewer ctx p s.instances));
      } in
    ground (arith, h, nonnull, w)

-- A context is made, with new addresses from the allocator, or one that was made is released.
pub data Step (s : Pktlists) : Pktlists → Type 0 where
  inits : (a : Args) (m : Allocs) → IsNew m s.heap → Step s (context_init a m s).1
  finis :
      (ctx : ℕ)
      → ctx ≢ 0
      → 0 < sum_of (λ t. one_if ctx t.ctx) s.instances
      → Step s (context_fini ctx s)

pub data Reach (s : Pktlists) : Pktlists → Type 0 where
  here : Reach s s
  next : {t u : Pktlists} → Reach s t → Step t u → Reach s u

Step-IsTracked : {s t : Pktlists} → Step s t → IsTracked s → IsTracked t
Step-IsTracked {s} (inits a m new) v = init-IsTracked a m s new v
Step-IsTracked {s} (finis ctx h tracked) v = fini-IsTracked ctx s h tracked v

Reach-IsTracked : {s t : Pktlists} → Reach s t → IsTracked s → IsTracked t
Reach-IsTracked here v = v
Reach-IsTracked (next r st) v = Step-IsTracked st (Reach-IsTracked r v)

-- The state when the module is loaded.
abbrev pub no_pktlists : Pktlists
no_pktlists = record { heap = []; contexts = λ p. zeroed 0; instances = [] }

-- Whatever contexts are made and released, with new addresses from the allocator or with NULL for any
-- of them, and only contexts in use are released: what is allocated is each instance with its context
-- and its table, once, and the contexts of the instances are filled.
pub reachable-IsTracked : {s : Pktlists} → Reach no_pktlists s → IsTracked s
reachable-IsTracked r = Reach-IsTracked r (record {
  counted = λ p. refl;
  single = λ p. omega arith;
  null = refl;
  filled = λ p h. absurd (omega (arith, h));
})
