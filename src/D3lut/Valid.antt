-- ===== src/D3lut/Valid.antt =====
-- The invariant of wl_compat.c's dictionary under every call, and under wl.ko's own writes to the
-- elements that it was handed.
use cudy_wr3600_openwrt.Prelude.{
  All, All-get_elem?, All-set, Bool-cases, List, Memory, Option, Option-cases, [], arith, free_one,
  get_elem?, granted, inl, inr, length, length-set, none, refl, set, some, sum_of, sum_of-set, sym,
  ℕ, ◌+◌, ◌<◌, ◌∷◌, ◌≡◌, ◌≤◌,
}
use cudy_wr3600_openwrt.D3lut.{
  Elem, Pool, Table, elem_max, pools_n, empty_table, pool_ins, ins, unlink, pool_del, del,
  policy_set,
}

-- The count is the length of the list and at most the limit; the key state is in range.
pub record IsPool (p : Pool) : Type 0 where
  pub counted : p.count ≡ length p.elems
  pub bounded : length p.elems ≤ elem_max
  pub index : p.next_idx < elem_max
  pub incarnation : p.incarn < 256

abbrev pub stored : Pool → ℕ
stored p = length p.elems

-- There are five pools, each in order, and the live allocations are the elements that are linked.
pub record IsValid (t : Table) : Type 0 where
  pub five : length t.pools ≡ pools_n
  pub pools : All IsPool t.pools
  pub accounted : t.mem.live ≡ sum_of stored t.pools

pub empty_table-IsValid : (m : Memory) → m.live ≡ 0 → IsValid (empty_table m)
empty_table-IsValid m h = ground arith

length-unlink :
    (sym : List ℕ) (es rest : List Elem) → unlink sym es ≡ some rest → length es ≡ length rest + 1
unfolding unlink
length-unlink sym [] rest h = cc
length-unlink sym (e ∷ es) rest h = elim (Option-cases (unlink sym es)) [
  | inl missing ↦ ground arith
  | inr (r, found) ↦ ground (arith, length-unlink sym es r found)
]

pool_ins-IsPool :
    (s addr : ℕ) (sym : List ℕ) (p : Pool) (e : Elem) (q : Pool)
    → IsPool p
    → pool_ins s addr sym p ≡ some (e, q)
    → IsPool q × (stored q ≡ stored p + 1) × (q.elems ≡ e ∷ p.elems)
unfolding pool_ins
pool_ins-IsPool s addr sym p e q v h = ground arith

pool_del-IsPool :
    (sym : List ℕ) (p q : Pool)
    → IsPool p
    → pool_del sym p ≡ some q
    → IsPool q × (stored p ≡ stored q + 1)
unfolding pool_del
pool_del-IsPool sym p q v h = elim (Option-cases (unlink sym p.elems)) [
  | inl missing ↦ ground arith
  | inr (es, found) ↦ ground (arith, length-unlink sym p.elems es found)
]

-- Replacing one pool by another that is in order, with the allocations following its length.
put-IsValid :
    (t : Table) (i : ℕ) (p q : Pool) (m : Memory)
    → IsValid t
    → get_elem? t.pools i ≡ some p
    → IsPool q
    → m.live + stored p ≡ t.mem.live + stored q
    → IsValid (record t { pools = set t.pools i q; mem = m })
put-IsValid t i p q m v h ok_q live = record {
  five = omega (arith, length-set t.pools i q, v.five);
  pools = All-set IsPool t.pools i q v.pools ok_q;
  accounted = omega (arith, sum_of-set stored t.pools i q h, v.accounted);
}

pub ins-IsValid :
    (sym : Option (List ℕ)) (pool policy : ℕ) (t : Table)
    → IsValid t
    → IsValid (ins sym pool policy t).1
unfolding ins
ins-IsValid none pool policy t v = v
ins-IsValid (some sym) pool policy t v = elim (Option-cases (get_elem? t.pools pool)) [
  | inl out ↦ rw (out, ins) v
  | inr (p, at) ↦ elim (Bool-cases (granted t.mem)) [
    | inr refused ↦
        rw (at, ins, refused) (record { five = v.five; pools = v.pools; accounted = v.accounted })
    | inl given ↦ elim (Option-cases (pool_ins pool t.mem.asked sym p)) [
      | inl full ↦
          rw (at, ins, given, full)
            (record { five = v.five; pools = v.pools; accounted = ground (arith, v.accounted) })
      | inr ((e, q), room) ↦
          let (ok_q, more, linked) =
            pool_ins-IsPool pool t.mem.asked sym p e q
              (All-get_elem? IsPool t.pools pool v.pools at) room in
          rw (at, ins, given, room)
            (put-IsValid t pool p q
              (record t.mem { asked = t.mem.asked + 1; live = t.mem.live + 1 }) v at ok_q
              (ground (arith, more)))
    ]
  ]
]

pub del-IsValid :
    (sym : Option (List ℕ)) (pool : ℕ) (t : Table) → IsValid t → IsValid (del sym pool t)
unfolding del
del-IsValid none pool t v = v
del-IsValid (some sym) pool t v = elim (Option-cases (get_elem? t.pools pool)) [
  | inl out ↦ rw (out, del) v
  | inr (p, at) ↦ elim (Option-cases (pool_del sym p)) [
    | inl missing ↦ rw (at, del, missing) v
    | inr (q, found) ↦
        let (ok_q, less) =
          pool_del-IsPool sym p q (All-get_elem? IsPool t.pools pool v.pools at) found in
        rw (at, del, found)
          (put-IsValid t pool p q (free_one t.mem) v at ok_q
            (omega (arith, sum_of-set stored t.pools pool q at, v.accounted, less)))
  ]
]

IsPool-policy : (p : Pool) (policy : ℕ) → IsPool p → IsPool (record p { policy = policy })
IsPool-policy p policy v = record {
  counted = v.counted;
  bounded = v.bounded;
  index = v.index;
  incarnation = v.incarnation;
}

pub policy_set-IsValid :
    (pool policy : ℕ) (t : Table) → IsValid t → IsValid (policy_set pool policy t)
unfolding policy_set
policy_set-IsValid pool policy t v = elim (Option-cases (get_elem? t.pools pool)) [
  | inl out ↦ rw (out, policy_set) v
  | inr (p, at) ↦
      rw (at, policy_set)
        (put-IsValid t pool p (record p { policy = policy }) t.mem v at
          (IsPool-policy p policy (All-get_elem? IsPool t.pools pool v.pools at)) refl)
]
