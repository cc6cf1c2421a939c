-- ===== src/Skb/Heap/Reach.antt =====
-- Any sequence of allocations, clones and frees in shim_skb.c, with the binary modules' own writes into
-- the descriptors between them.
use cudy_wr3600_openwrt.Prelude.{
  Bool-cases, Option, granted, if◌then◌else◌, length-append, length-set, not, request, sum_of, sym,
  ◌&&◌, ◌==◌, ◌∙◌, ◌≡◌, Bool, List, Memory, Option-cases, [], arith, false, inl, inr, length, none,
  refl, set, some, true, ℕ, ◌+◌, ◌-◌, ◌<◌, ◌^◌, ◌∷◌, ◌≤◌,
}
use cudy_wr3600_openwrt.Skb.{Packet, validate}
use cudy_wr3600_openwrt.Skb.Create.{Layout, alloc}
use cudy_wr3600_openwrt.Skb.Heap.{
  Head, Heap, head_at, load, heap_alloc, share, settle, clone, release, free,
}
use cudy_wr3600_openwrt.Skb.Heap.Counts.{IsHeap, sole_ref, clone_ref}
use cudy_wr3600_openwrt.Skb.Heap.Keeps.{
  head_at-some, kept-IsHeap, clone-IsHeap, free-IsHeap, heap_alloc-IsHeap,
}

-- A module holds another reference or edits its window: it writes any of the view's fields but the
-- marks of clones and of released headers, which with the block's count are the shim's.
pub write : ℕ → Packet → Heap → Heap
write i view s = elim (head_at i s) [
  | none ↦ s
  | some h ↦ record s {
    heads = set s.heads i (some (record h { view = record view { cloned = h.view.cloned } }));
  }
]

pub data Call : Type 0 where
  do_alloc : Layout → ℕ → ℕ → Call
  do_clone do_free : ℕ → Call
  do_write : ℕ → Packet → Call

pub step : ℕ → Call → Heap → Heap
step vlan_bit (do_alloc l base size) s = (heap_alloc l base size s).1
step vlan_bit (do_clone i) s = (clone vlan_bit i s).1
step vlan_bit (do_free i) s = (free vlan_bit i s).1
step vlan_bit (do_write i view) s = write i view s

pub run : ℕ → List Call → Heap → Heap
run vlan_bit [] s = s
run vlan_bit (c ∷ cs) s = run vlan_bit cs (step vlan_bit c s)

abbrev pub empty_heap : Memory → Heap
empty_heap mem = record {
  heads = [];
  dataref = λ b. 0;
  fresh = 0;
  mem = mem;
  headers = 0;
  destroyed = [];
}

write-IsHeap : (i : ℕ) (view : Packet) (s : Heap) → IsHeap s → IsHeap (write i view s)
unfolding write
write-IsHeap i view s v = elim (Option-cases (head_at i s)) [
  | inl missing ↦ rw (missing, write) v
  | inr (h, found) ↦
      rw (found, write)
        (kept-IsHeap i h s (record view { cloned = h.view.cloned }) v (head_at-some i s h found)
          refl)
]

step-IsHeap :
    (vlan_bit : ℕ) (c : Call) (s : Heap)
    → IsHeap s
    → length s.heads < 2 ^ 32 - 1
    → IsHeap (step vlan_bit c s)
unfolding step
step-IsHeap vlan_bit (do_alloc l base size) s v h = heap_alloc-IsHeap l base size s v
step-IsHeap vlan_bit (do_clone i) s v h = clone-IsHeap vlan_bit i s v h
step-IsHeap vlan_bit (do_free i) s v h = free-IsHeap vlan_bit i s v h
step-IsHeap vlan_bit (do_write i view) s v h = write-IsHeap i view s v

-- The number of descriptors grows by one at most.
settle-length :
    (a b : Bool) (m n : Memory) (i : ℕ) (h : Head) (s : Heap)
    → length (settle a b m n i h s).1.heads ≤ length s.heads + 1
unfolding settle share
settle-length false b m n i h s = omega arith
settle-length true true m n i h s = omega arith
settle-length true false m n i h s =
    let marked = record h { view = record h.view { cloned = true } } in
    let dst = record h {
      view = record h.view { cloned = true; users = 1 };
      nohdr = false;
      native_owner = false;
    } in
    omega (
      arith,
      length-append (set s.heads i (some marked)) (some dst ∷ []),
      length-set s.heads i (some marked),
    )

alloc-length :
    (l : Layout) (base size : ℕ) (s : Heap)
    → length (heap_alloc l base size s).1.heads ≤ length s.heads + 1
unfolding heap_alloc
alloc-length l base size s = elim (Option-cases (alloc l base size s.mem).0) [
  | inl refused ↦ rw (refused, heap_alloc) (omega arith)
  | inr (p, made) ↦
      let new : Head = record {
        view = p;
        block = s.fresh;
        nohdr = false;
        native_meta = false;
        native_owner = false;
      } in
      rw (made, heap_alloc) (omega (arith, length-append s.heads (some new ∷ [])))
]

clone-length :
    (vlan_bit i : ℕ) (s : Heap) → length (clone vlan_bit i s).1.heads ≤ length s.heads + 1
unfolding clone
clone-length vlan_bit i s = elim (Option-cases (head_at i s)) [
  | inl missing ↦ rw (missing, clone) (omega arith)
  | inr (h, found) ↦ elim (Option-cases (validate vlan_bit (load s h))) [
    | inr (e, bad) ↦ rw (found, clone, bad) (omega arith)
    | inl good ↦
        rw (found, clone, good)
          (settle-length (granted s.mem) (h.native_meta && not (granted (request s.mem)))
            (request s.mem) (if h.native_meta then request (request s.mem) else request s.mem) i h
            s)
  ]
]

free-length : (vlan_bit i : ℕ) (s : Heap) → length (free vlan_bit i s).1.heads ≤ length s.heads + 1
unfolding free release
free-length vlan_bit i s = elim (Option-cases (head_at i s)) [
  | inl missing ↦ rw (missing, free) (omega arith)
  | inr (h, found) ↦ elim (Option-cases (validate vlan_bit (load s h))) [
    | inr (e, bad) ↦ rw (found, free, bad) (omega arith)
    | inl good ↦ elim (Bool-cases (h.view.users == 1)) [
      | inl last ↦ rw (found, free, good, last) (omega (arith, length-set s.heads i none))
      | inr more ↦
          let fewer = record h { view = record h.view { users = h.view.users - 1 } } in
          rw (found, free, good, more) (omega (arith, length-set s.heads i (some fewer)))
    ]
  ]
]

write-length :
    (i : ℕ) (view : Packet) (s : Heap) → length (write i view s).heads ≤ length s.heads + 1
unfolding write
write-length i view s = elim (Option-cases (head_at i s)) [
  | inl missing ↦ rw (missing, write) (omega arith)
  | inr (h, found) ↦
      let new = record h { view = record view { cloned = h.view.cloned } } in
      rw (found, write) (omega (arith, length-set s.heads i (some new)))
]

step-length :
    (vlan_bit : ℕ) (c : Call) (s : Heap) → length (step vlan_bit c s).heads ≤ length s.heads + 1
unfolding step
step-length vlan_bit (do_alloc l base size) s = alloc-length l base size s
step-length vlan_bit (do_clone i) s = clone-length vlan_bit i s
step-length vlan_bit (do_free i) s = free-length vlan_bit i s
step-length vlan_bit (do_write i view) s = write-length i view s

run-IsHeap :
    (vlan_bit : ℕ) (cs : List Call) (s : Heap)
    → IsHeap s
    → length s.heads + length cs < 2 ^ 32 - 1
    → IsHeap (run vlan_bit cs s)
unfolding run
run-IsHeap vlan_bit [] s v h = v
run-IsHeap vlan_bit (c ∷ cs) s v h =
    run-IsHeap vlan_bit cs (step vlan_bit c s) (step-IsHeap vlan_bit c s v (omega arith))
      (omega (arith, step-length vlan_bit c s))

-- How many live descriptors refer to a block.
abbrev pub refs_to : ℕ → List (Option Head) → ℕ
refs_to b [] = 0
refs_to b (none ∷ os) = refs_to b os
refs_to b (some h ∷ os) = if h.block == b then refs_to b os + 1 else refs_to b os

refs_to-sum :
    (b : ℕ) (os : List (Option Head))
    → refs_to b os ≡ sum_of (sole_ref b) os + sum_of (clone_ref b) os
refs_to-sum b [] = refl
refs_to-sum b (none ∷ os) = omega (arith, refs_to-sum b os)
refs_to-sum b (some h ∷ os) = ground (arith, refs_to-sum b os)

-- After any sequence of fewer than 2 ^ 32 - 1 allocations, clones, frees and writes by the modules, the
-- count of every data block is the number of descriptors that refer to it:
-- it is 0, and the block freed, exactly when none does.
pub run-refs_to :
    (vlan_bit : ℕ) (cs : List Call) (mem : Memory) (b : ℕ)
    → length cs < 2 ^ 32 - 1
    → (run vlan_bit cs (empty_heap mem)).dataref b
      ≡ refs_to b (run vlan_bit cs (empty_heap mem)).heads
run-refs_to vlan_bit cs mem b h =
    let start : IsHeap (empty_heap mem) = record {
      counted = λ b. refl;
      alone = λ b. inl refl;
      plain = refl;
      unused = λ b h. refl;
    } in
    let v = run-IsHeap vlan_bit cs (empty_heap mem) start (omega arith) in
    v.counted b ∙ sym (refs_to-sum b (run vlan_bit cs (empty_heap mem)).heads)
