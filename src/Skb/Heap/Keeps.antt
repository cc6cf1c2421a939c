-- ===== src/Skb/Heap/Keeps.antt =====
-- Each operation of shim_skb.c on shared data blocks keeps their counts.
use cudy_wr3600_openwrt.Prelude.{
  Bool, Bool-cases, Memory, Option-cases, [], arith, false, free_one, get_elem?, granted,
  if◌then◌else◌, inl, inr, length, none, not, refl, request, set, some, sum_of-set, true, update, ℕ,
  ◌%◌, ◌&&◌, ◌++◌, ◌+◌, ◌-◌, ◌<◌, ◌==◌, ◌^◌, ◌∷◌, ◌≡◌,
}
use cudy_wr3600_openwrt.Skb.{Packet, validate}
use cudy_wr3600_openwrt.Skb.Create.{Layout, alloc}
use cudy_wr3600_openwrt.Skb.Create.Fresh.{uncloned_of, alloc-Allocated}
use cudy_wr3600_openwrt.Skb.Heap.{
  Head, Heap, head_at, load, heap_alloc, share, settle, clone, release, free,
}
use cudy_wr3600_openwrt.Skb.Heap.Counts.{
  IsHeap, sole_ref, clone_ref, has_nohdr, facts, sum_of-append, sum_of-joined,
}

release-IsHeap :
    (i : ℕ) (h : Head) (s : Heap)
    → IsHeap s
    → get_elem? s.heads i ≡ some (some h)
    → length s.heads < 2 ^ 32 - 1
    → IsHeap (release i h s)
unfolding release
release-IsHeap i h s v at small = record {
  counted = λ b. ground (
    arith,
    facts i h s b v at small,
    facts i h s h.block v at small,
    sum_of-set (sole_ref b) s.heads i none at,
    sum_of-set (clone_ref b) s.heads i none at,
  );
  alone = λ b. ground (
    arith,
    facts i h s b v at small,
    sum_of-set (sole_ref b) s.heads i none at,
    sum_of-set (clone_ref b) s.heads i none at,
  );
  plain = omega (arith, sum_of-set has_nohdr s.heads i none at, v.plain);
  unused = λ b above. ground (arith, v.unused b above, facts i h s b v at small);
}

share-IsHeap :
    (i : ℕ) (h : Head) (s : Heap)
    → IsHeap s
    → get_elem? s.heads i ≡ some (some h)
    → length s.heads < 2 ^ 32 - 1
    → IsHeap (share i h s).1
unfolding share
share-IsHeap i h s v at small =
    let marked = record h { view = record h.view { cloned = true } } in
    let dst = record h {
      view = record h.view { cloned = true; users = 1 };
      nohdr = false;
      native_owner = false;
    } in
    record {
      counted = λ b. ground (
        arith,
        facts i h s b v at small,
        sum_of-joined (sole_ref b) s.heads i (some marked) (some dst) at,
        sum_of-joined (clone_ref b) s.heads i (some marked) (some dst) at,
      );
      alone = λ b. ground (
        arith,
        facts i h s b v at small,
        sum_of-joined (sole_ref b) s.heads i (some marked) (some dst) at,
        sum_of-joined (clone_ref b) s.heads i (some marked) (some dst) at,
      );
      plain = ground (
        arith,
        facts i h s h.block v at small,
        v.plain,
        sum_of-joined has_nohdr s.heads i (some marked) (some dst) at,
      );
      unused = λ b above. ground (arith, v.unused b above, facts i h s b v at small);
    }

-- Descriptors and blocks are the same, whatever the allocator did.
memory-IsHeap : (s : Heap) (m : Memory) → IsHeap s → IsHeap (record s { mem = m })
memory-IsHeap s m v = record {
  counted = v.counted;
  alone = v.alone;
  plain = v.plain;
  unused = v.unused;
}

pub head_at-some :
    (i : ℕ) (s : Heap) (h : Head) → head_at i s ≡ some h → get_elem? s.heads i ≡ some (some h)
head_at-some i s h e = elim (Option-cases (get_elem? s.heads i)) [
  | inl out ↦ absurd (ground arith)
  | inr (o, at) ↦ ground arith
]

settle-IsHeap :
    (granted_one refused : Bool) (entry both : Memory) (i : ℕ) (h : Head) (s : Heap)
    → IsHeap s
    → get_elem? s.heads i ≡ some (some h)
    → length s.heads < 2 ^ 32 - 1
    → IsHeap (settle granted_one refused entry both i h s).1
unfolding settle
settle-IsHeap false refused entry both i h s v at small = memory-IsHeap s entry v
settle-IsHeap true true entry both i h s v at small = memory-IsHeap s (free_one both) v
settle-IsHeap true false entry both i h s v at small =
    share-IsHeap i h (record s { mem = both }) (memory-IsHeap s both v) at small

pub clone-IsHeap :
    (vlan_bit i : ℕ) (s : Heap)
    → IsHeap s
    → length s.heads < 2 ^ 32 - 1
    → IsHeap (clone vlan_bit i s).1
unfolding clone
clone-IsHeap vlan_bit i s v small = elim (Option-cases (head_at i s)) [
  | inl missing ↦ rw (missing, clone) v
  | inr (h, found) ↦ elim (Option-cases (validate vlan_bit (load s h))) [
    | inr (e, bad) ↦ rw (found, clone, bad) v
    | inl good ↦
        rw (found, clone, good)
          (settle-IsHeap (granted s.mem) (h.native_meta && not (granted (request s.mem)))
            (request s.mem) (if h.native_meta then request (request s.mem) else request s.mem) i h s
            v (head_at-some i s h found) small)
  ]
]

-- A descriptor that keeps its block and its marks.
pub kept-IsHeap :
    (i : ℕ) (h : Head) (s : Heap) (view : Packet)
    → IsHeap s
    → get_elem? s.heads i ≡ some (some h)
    → view.cloned ≡ h.view.cloned
    → IsHeap (record s { heads = set s.heads i (some (record h { view = view })) })
kept-IsHeap i h s view v at same =
    let new = record h { view = view } in
    record {
      counted = λ b. ground (
        arith,
        v.counted b,
        sum_of-set (sole_ref b) s.heads i (some new) at,
        sum_of-set (clone_ref b) s.heads i (some new) at,
      );
      alone = λ b. ground (arith, v.alone b, sum_of-set (sole_ref b) s.heads i (some new) at);
      plain = omega (arith, v.plain, sum_of-set has_nohdr s.heads i (some new) at);
      unused = v.unused;
    }

pub free-IsHeap :
    (vlan_bit i : ℕ) (s : Heap)
    → IsHeap s
    → length s.heads < 2 ^ 32 - 1
    → IsHeap (free vlan_bit i s).1
unfolding free
free-IsHeap vlan_bit i s v small = elim (Option-cases (head_at i s)) [
  | inl missing ↦ rw (missing, free) v
  | inr (h, found) ↦ elim (Option-cases (validate vlan_bit (load s h))) [
    | inr (e, bad) ↦ rw (found, free, bad) v
    | inl good ↦
        let at = head_at-some i s h found in
        elim (Bool-cases (h.view.users == 1)) [
          | inl last ↦ rw (found, free, good, last) (release-IsHeap i h s v at small)
          | inr more ↦
              rw (found, free, good, more)
                (kept-IsHeap i h s (record h.view { users = h.view.users - 1 }) v at refl)
        ]
  ]
]

-- A new block with its only descriptor.
appended-IsHeap :
    (p : Packet) (s : Heap) (m : Memory)
    → IsHeap s
    → p.cloned ≡ false
    → IsHeap (record s {
      heads =
          s.heads
          ++ (some (record {
            view = p;
            block = s.fresh;
            nohdr = false;
            native_meta = false;
            native_owner = false;
          })
              ∷ []);
      dataref = update s.dataref s.fresh 1;
      fresh = s.fresh + 1;
      mem = m;
      headers = (s.headers + 1) % 2 ^ 32;
    })
appended-IsHeap p s m v sole =
    let new : Head = record {
      view = p;
      block = s.fresh;
      nohdr = false;
      native_meta = false;
      native_owner = false;
    } in
    let empty = v.unused s.fresh (omega arith) in
    record {
      counted = λ b. ground (
        arith,
        v.counted b,
        v.counted s.fresh,
        empty,
        sole,
        sum_of-append (sole_ref b) s.heads (some new ∷ []),
        sum_of-append (clone_ref b) s.heads (some new ∷ []),
      );
      alone = λ b. ground (
        arith,
        v.alone b,
        v.counted b,
        v.counted s.fresh,
        empty,
        sole,
        sum_of-append (sole_ref b) s.heads (some new ∷ []),
      );
      plain = omega (arith, v.plain, sum_of-append has_nohdr s.heads (some new ∷ []));
      unused = λ b above. ground (arith, v.unused b);
    }

pub heap_alloc-IsHeap :
    (l : Layout) (base size : ℕ) (s : Heap) → IsHeap s → IsHeap (heap_alloc l base size s).1
unfolding heap_alloc
heap_alloc-IsHeap l base size s v = elim (Option-cases (alloc l base size s.mem).0) [
  | inl refused ↦ rw (refused, heap_alloc) (memory-IsHeap s (alloc l base size s.mem).1 v)
  | inr (p, made) ↦
      let sole =
        uncloned_of 0 0 size s.mem (alloc l base size s.mem) p (alloc-Allocated 0 l base size s.mem)
          made in
      rw (made, heap_alloc) (appended-IsHeap p s (alloc l base size s.mem).1 v sole)
]
