-- ===== src/Pktlist/Ring.antt =====
-- The lists of a pktlist context in wl_compat.c.
use cudy_wr3600_openwrt.Prelude.{
  List, refl, ◌%◌, ◌*◌, ◌/◌, ◌^◌, Bool-cases, arith, if◌then◌else◌, inl, inr, suc, update, zero, ℕ,
  ◌+◌, ◌-◌, ◌<◌, ◌==◌, ◌≡◌, ◌≤◌,
}
use mathlib.Core.Path.{subst}
use Prim.Native.Nat.{bit_or}
use cudy_wr3600_openwrt.Prelude.Bits.{bit_or-fields}
use cudy_wr3600_openwrt.Pktlist.Context.{
  mcast_list, zeroed, instance_node, ucast_list, Pktlist, Context, Args, encode, fresh_pktlist,
  place, elem_node, free_list, prio_max, dest_max, dll_init, dll_append, init_elem, init_dests,
  init_prios, fill_context,
}

-- The first `n` elements are on the free list in the order of the table and are fresh, and the lists of
-- multicast packets and of the first `lists` priorities are empty.
pub record IsFilled (n lists : ℕ) (c : Context) : Type 0 where
  pub first : c.nodes.next_p free_list ≡ (if n == 0 then free_list else elem_node 0)
  pub last : c.nodes.prev_p free_list ≡ (if n == 0 then free_list else elem_node (n - 1))
  pub nexts :
      (k : ℕ)
      → k < n
      → c.nodes.next_p (elem_node k) ≡ (if k + 1 == n then free_list else elem_node (k + 1))
  pub prevs :
      (k : ℕ)
      → k < n
      → c.nodes.prev_p (elem_node k) ≡ (if k == 0 then free_list else elem_node (k - 1))
  pub fresh : (p d : ℕ) → d < dest_max → place p d < n → c.elems (place p d) ≡ fresh_pktlist p d
  pub empty : (q : ℕ) → 1 ≤ q → q < 2 + lists → (c.nodes.next_p q ≡ q) × (c.nodes.prev_p q ≡ q)

place-injective :
    (p d q e : ℕ) → d < dest_max → e < dest_max → place p d ≡ place q e → (p ≡ q) × (d ≡ e)
place-injective p d q e hd he h = (omega (arith, hd, he, h), omega (arith, hd, he, h))

fresh-update :
    (prio dest p d : ℕ) (elems : ℕ → Pktlist)
    → dest < dest_max
    → d < dest_max
    → (place p d < place prio dest → elems (place p d) ≡ fresh_pktlist p d)
    → place p d < place prio dest + 1
    → update elems (place prio dest) (fresh_pktlist prio dest) (place p d) ≡ fresh_pktlist p d
fresh-update prio dest p d elems h hd old lt = elim (Bool-cases (place prio dest == place p d)) [
  | inl e ↦
      let same = place-injective prio dest p d h hd (ground (arith, e)) in
      rw e (λ i. fresh_pktlist (same.0 i) (same.1 i))
  | inr e ↦ rw e (old (ground (arith, lt, e)))
]

init_elem-IsFilled :
    (prio dest lists : ℕ) (c : Context)
    → dest < dest_max
    → lists ≤ prio_max
    → IsFilled (place prio dest) lists c
    → IsFilled (place prio dest + 1) lists (init_elem prio dest c)
unfolding init_elem dll_append dll_init
init_elem-IsFilled prio dest lists c hd hl v = record {
  first = ground (arith, v.first, v.last);
  last = ground (arith, v.first, v.last);
  nexts = λ k h. ground (arith, v.first, v.last, v.nexts k, h);
  prevs = λ k h. ground (arith, v.first, v.last, v.prevs k, h);
  fresh = λ p d h lt. fresh-update prio dest p d c.elems hd h (v.fresh p d h) lt;
  empty = λ q h lt. ground (arith, v.first, v.last, v.empty q h lt, h, lt, hl);
}

init_dests-IsFilled :
    (count prio lists : ℕ) (c : Context)
    → count ≤ dest_max
    → lists ≤ prio_max
    → IsFilled (place prio 0) lists c
    → IsFilled (place prio count) lists (init_dests count prio c)
unfolding init_dests
init_dests-IsFilled zero prio lists c h hl v = v
init_dests-IsFilled (suc count) prio lists c h hl v =
    let next : place prio count + 1 ≡ place prio (suc count) = omega arith in
    subst (λ n. IsFilled n lists (init_elem prio count (init_dests count prio c))) next
      (init_elem-IsFilled prio count lists (init_dests count prio c) (omega (arith, h)) hl
        (init_dests-IsFilled count prio lists c (omega (arith, h)) hl v))

ucast-IsFilled :
    (n prio : ℕ) (c : Context)
    → prio < prio_max
    → IsFilled n prio c
    → IsFilled n (suc prio) (record c { nodes = dll_init (ucast_list prio) c.nodes })
unfolding dll_init
ucast-IsFilled n prio c h v = record {
  first = ground (arith, v.first, h);
  last = ground (arith, v.last, h);
  nexts = λ k hk. ground (arith, v.nexts k hk, h);
  prevs = λ k hk. ground (arith, v.prevs k hk, h);
  fresh = v.fresh;
  empty = λ q hq lt. ground (arith, v.empty q hq, lt);
}

init_prios-IsFilled :
    (count : ℕ) (c : Context)
    → count ≤ prio_max
    → IsFilled 0 0 c
    → IsFilled (place count 0) count (init_prios count c)
unfolding init_prios
init_prios-IsFilled zero c h v = v
init_prios-IsFilled (suc prio) c h v =
    let d : Context = init_prios prio c in
    let w =
      ucast-IsFilled (place prio 0) prio d (omega (arith, h))
        (init_prios-IsFilled prio c (omega (arith, h)) v) in
    let next : place prio dest_max ≡ place (suc prio) 0 = omega arith in
    subst (λ n. IsFilled n (suc prio) (init_prios (suc prio) c)) next
      (init_dests-IsFilled dest_max prio (suc prio) _ (omega arith) (omega (arith, h)) w)

-- The context that pktlist_context_init fills has all the 4104 elements of its table on the free list,
-- in the order of the table and with the links both ways, each without packets and with the tag of its
-- priority and destination; its other lists are empty.
pub fill_context-IsFilled :
    (a : Args) (name : List ℕ) (table : ℕ)
    → IsFilled (prio_max * dest_max) prio_max (fill_context a name table)
      × ((fill_context a name table).nodes.next_p instance_node ≡ instance_node)
      × ((fill_context a name table).nodes.prev_p instance_node ≡ instance_node)
unfolding fill_context dll_init
fill_context-IsFilled a name table =
    let start : Context = record (zeroed table) {
      nodes = dll_init mcast_list (dll_init free_list (zeroed table).nodes);
    } in
    let begun : IsFilled 0 0 start = record {
      first = refl;
      last = refl;
      nexts = λ k h. ground (arith, h);
      prevs = λ k h. ground (arith, h);
      fresh = λ p d h lt. ground (arith, lt);
      empty = λ q h lt. ground (arith, h, lt);
    } in
    let v = init_prios-IsFilled prio_max start (omega arith) begun in
    (
      record {
        first = ground (arith, v.first);
        last = ground (arith, v.last);
        nexts = λ k h. ground (arith, v.nexts k h);
        prevs = λ k h. ground (arith, v.prevs k h);
        fresh = v.fresh;
        empty = λ q h lt. ground (arith, v.empty q h lt, lt);
      },
      ground arith,
      ground arith,
    )

-- The tag of an element has its destination in the low twelve bits and its priority above them, and so
-- distinct elements have distinct tags. Read as the low four bits for the priority and the others for
-- the destination, it gives the priority from the destination alone.
pub encode_lem :
    (prio dest : ℕ)
    → prio < prio_max
    → dest < dest_max
    → (encode prio dest % 2 ^ 12 ≡ dest)
      × (encode prio dest / 2 ^ 12 ≡ prio)
      × (encode prio dest % 2 ^ 4 ≡ dest % 2 ^ 4)
unfolding encode
encode_lem prio dest h hd =
    let small : prio % 16 ≡ prio = omega (arith, h) in
    let short : dest % 2 ^ 12 ≡ dest = omega (arith, hd) in
    let fields : bit_or (prio * 2 ^ 12) dest ≡ prio * 2 ^ 12 + dest =
      bit_or-fields 12 prio dest (omega (arith, hd)) in
    rw (small, short, fields) (omega (arith, h, hd), omega (arith, h, hd), omega (arith, h, hd))
