-- ===== src/Skb/Heap.antt =====
-- Descriptors of shim_skb.c that share data blocks: allocation, clones and the free that drops a
-- reference. A descriptor is its index in the heap, a data block its number.
pub mod Counts
pub mod Keeps
pub mod Reach
use cudy_wr3600_openwrt.Prelude.{
  Bool, Errno, List, Memory, Option, [], drop, einval, false, free_if, free_one, get_elem?, granted,
  if◌then◌else◌, length, none, not, request, set, some, true, update, ℕ, ◌%◌, ◌&&◌, ◌++◌, ◌+◌, ◌-◌,
  ◌==◌, ◌^◌, ◌∷◌,
}
use cudy_wr3600_openwrt.Skb.{Packet, validate}
use cudy_wr3600_openwrt.Skb.Create.{Layout, alloc}

-- The descriptor's own fields; `dataref` of the view is that of the block.
pub record Head : Type 0 where
  pub view : Packet
  pub block : ℕ
  pub nohdr : Bool
  pub native_meta : Bool
  pub native_owner : Bool

-- `none` is a descriptor that was freed; `dataref` is 0 for a block that is not allocated.
pub record Heap : Type 0 where
  pub heads : List (Option Head)
  pub dataref : ℕ → ℕ
  pub fresh : ℕ
  pub mem : Memory
  pub headers : ℕ
  pub destroyed : List ℕ  -- descriptors whose destructor was due, newest first

abbrev pub head_at : ℕ → Heap → Option Head
head_at i s = elim (get_elem? s.heads i) [ none ↦ none | some o ↦ o ]

-- The descriptor with the count of its block.
abbrev pub load : Heap → Head → Packet
load s h = record h.view { dataref = s.dataref h.block }

-- `shim_skb_alloc`
pub heap_alloc : Layout → ℕ → ℕ → Heap → Option ℕ × Heap
heap_alloc l base size s = elim (alloc l base size s.mem).0 [
  | none ↦ (none, record s { mem = (alloc l base size s.mem).1 })
  | some p ↦ (
    some (length s.heads),
    record s {
      heads =
          s.heads
          ++ (some (record {
            view = p;
            block = s.fresh;
            nohdr = false;
            native_meta = false;
            native_owner = false;
          })
              ∷ []);
      dataref = update s.dataref s.fresh 1;
      fresh = s.fresh + 1;
      mem = (alloc l base size s.mem).1;
      headers = (s.headers + 1) % 2 ^ 32;
    },
  )
]

-- The end of `shim_skb_clone`, with everything allocated: source `i` holds `h`.
pub share : ℕ → Head → Heap → Option ℕ × Heap
share i h s =
    let marked = record h.view { cloned = true } in
    let dst : Head = record {
      view = record h.view { cloned = true; users = 1 };
      block = h.block;
      nohdr = false;
      native_meta = h.native_meta;
      native_owner = false;
    } in
    (
      some (length s.heads),
      record s {
        heads = set s.heads i (some (record h { view = marked })) ++ (some dst ∷ []);
        dataref = update s.dataref h.block ((s.dataref h.block + 1) % 2 ^ 32);
        headers = (s.headers + 1) % 2 ^ 32;
      },
    )

-- `shim_skb_clone` from its allocations on: whether the descriptor was granted, whether a native clone
-- was needed and refused, and the allocator after the one and after both.
pub settle : Bool → Bool → Memory → Memory → ℕ → Head → Heap → Option ℕ × Heap
settle false refused entry both i h s = (none, record s { mem = entry })
settle true true entry both i h s = (none, record s { mem = free_one both })
settle true false entry both i h s = share i h (record s { mem = both })

-- `shim_skb_clone`
pub clone : ℕ → ℕ → Heap → Option ℕ × Heap
clone vlan_bit i s = elim (head_at i s) [
  | none ↦ (none, s)
  | some h ↦
      let entry = request s.mem in
      let both = if h.native_meta then request entry else entry in
      elim (validate vlan_bit (load s h)) [
        | some e ↦ (none, s)
        | none ↦ settle (granted s.mem) (h.native_meta && not (granted entry)) entry both i h s
      ]
]

-- The last reference to descriptor `i` is gone: the block loses one, or goes with it.
pub release : ℕ → Head → Heap → Heap
release i h s =
    let drop = if h.nohdr then 0x10001 else 1 in
    let remain = if h.view.cloned then (s.dataref h.block + 2 ^ 32 - drop) % 2 ^ 32 else 0 in
    record s {
      heads = set s.heads i none;
      dataref = update s.dataref h.block remain;
      mem = free_one (free_if h.native_owner (free_if h.native_meta (free_if (remain == 0) s.mem)));
      headers = (s.headers + 2 ^ 32 - 1) % 2 ^ 32;
      destroyed = i ∷ s.destroyed;
    }

-- `shim_skb_free` of a pointer that is not NULL; `none` is 0.
pub free : ℕ → ℕ → Heap → Option Errno × Heap
free vlan_bit i s = elim (head_at i s) [
  | none ↦ (some einval, s)
  | some h ↦
      let fewer = record h { view = record h.view { users = h.view.users - 1 } } in
      elim (validate vlan_bit (load s h)) [
        | some e ↦ (some e, s)
        | none ↦
            if h.view.users == 1
            then (none, release i h s)
            else (none, record s { heads = set s.heads i (some fewer) })
      ]
]
