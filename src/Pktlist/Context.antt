-- ===== src/Pktlist/Context.antt =====
-- The initialisation and the release of a pktlist context in wl_compat.c.
use Prim.Native.Nat.{bit_or}
use cudy_wr3600_openwrt.Prelude.{
  List, Option, [], if◌then◌else◌, none, some, suc, take, update, zero, ℕ, ◌%◌, ◌*◌, ◌+◌, ◌==◌, ◌^◌,
  ◌∷◌,
}

-- A doubly linked list through the nodes of a context, by their places below.
pub record Dll : Type 0 where
  pub next_p : ℕ → ℕ
  pub prev_p : ℕ → ℕ

-- The heads of the lists of a context, and the node of each element of its table.
abbrev pub free_list : ℕ
free_list = 0

abbrev pub mcast_list : ℕ
mcast_list = 1

abbrev pub ucast_list : ℕ → ℕ
ucast_list prio = 2 + prio

abbrev pub instance_node : ℕ
instance_node = 10

abbrev pub prio_max : ℕ
prio_max = 8

abbrev pub dest_max : ℕ
dest_max = 513

-- The place of an element in the table.
abbrev pub place : ℕ → ℕ → ℕ
place prio dest = prio * dest_max + dest

abbrev pub elem_node : ℕ → ℕ
elem_node n = 11 + n

pub record Pktlist : Type 0 where
  pub head : ℕ
  pub tail : ℕ
  pub len : ℕ
  pub prio_dest : ℕ
  pub key : ℕ

-- `wl_pktlist_context`, with the elements of its table and all list nodes.
pub record Context : Type 0 where
  pub table : ℕ
  pub dispatches : ℕ
  pub nodes : Dll
  pub elems : ℕ → Pktlist
  pub peer : ℕ
  pub xfer_fn : ℕ
  pub keymap_fn : ℕ
  pub driver : ℕ
  pub driver_name : List ℕ
  pub unit : ℕ

-- `wl_dll_init`
unfoldable pub dll_init : ℕ → Dll → Dll
dll_init d s = record { next_p = update s.next_p d d; prev_p = update s.prev_p d d }

-- `wl_dll_append`
unfoldable pub dll_append : ℕ → ℕ → Dll → Dll
dll_append head node s =
    let last = s.prev_p head in
    record {
      next_p = update (update s.next_p node head) last node;
      prev_p = update (update s.prev_p node last) head node;
    }

-- The tag of an element, which is in 16 bits.
unfoldable pub encode : ℕ → ℕ → ℕ
encode prio dest = bit_or (prio % 16 * 2 ^ 12) (dest % 2 ^ 12) % 2 ^ 16

abbrev pub fresh_pktlist : ℕ → ℕ → Pktlist
fresh_pktlist prio dest = record {
  head = 0;
  tail = 0;
  len = 0;
  prio_dest = encode prio dest;
  key = 0xFFFF;
}

-- The element at a place is put on the free list.
unfoldable pub init_elem : ℕ → ℕ → Context → Context
init_elem prio dest c =
    let n = place prio dest in
    record c {
      nodes = dll_append free_list (elem_node n) (dll_init (elem_node n) c.nodes);
      elems = update c.elems n (fresh_pktlist prio dest);
    }

-- The first `count` turns of the inner loop.
unfoldable pub init_dests : ℕ → ℕ → Context → Context
init_dests zero prio c = c
init_dests (suc count) prio c = init_elem prio count (init_dests count prio c)

-- The first `count` turns of the outer loop.
unfoldable pub init_prios : ℕ → Context → Context
init_prios zero c = c
init_prios (suc prio) c =
    let d = init_prios prio c in
    init_dests dest_max prio (record d { nodes = dll_init (ucast_list prio) d.nodes })

-- A table and a context filled with zeros.
abbrev pub zeroed : ℕ → Context
zeroed table = record {
  table = table;
  dispatches = 0;
  nodes = record { next_p = λ n. 0; prev_p = λ n. 0 };
  elems = λ n. record { head = 0; tail = 0; len = 0; prio_dest = 0; key = 0 };
  peer = 0;
  xfer_fn = 0;
  keymap_fn = 0;
  driver = 0;
  driver_name = [];
  unit = 0;
}

-- The arguments of pktlist_context_init; a name that is NULL is none.
pub record Args : Type 0 where
  pub peer : ℕ
  pub xfer_fn : ℕ
  pub keymap_fn : ℕ
  pub driver : ℕ
  pub driver_name : Option (List ℕ)
  pub unit : ℕ

unfoldable pub fill_context : Args → List ℕ → ℕ → Context
fill_context a name table =
    let c = zeroed table in
    let lists = dll_init mcast_list (dll_init free_list c.nodes) in
    let d = init_prios prio_max (record c { nodes = lists }) in
    record d {
      peer = a.peer;
      xfer_fn = a.xfer_fn;
      keymap_fn = a.keymap_fn;
      driver = a.driver;
      driver_name = take 7 name;
      unit = a.unit;
      nodes = dll_init instance_node d.nodes;
    }

-- A `wl_pktlist_track`: its own address and that of its context.
pub record Track : Type 0 where
  pub address : ℕ
  pub ctx : ℕ

-- What is allocated, the contexts by their addresses, and `wl_pktlist_instances`.
pub record Pktlists : Type 0 where
  pub heap : List ℕ
  pub contexts : ℕ → Context
  pub instances : List Track

-- What the three allocations answer: addresses, or NULL.
pub record Allocs : Type 0 where
  pub ctx : ℕ
  pub table : ℕ
  pub track : ℕ

unfoldable pub release : ℕ → List ℕ → List ℕ
release p [] = []
release p (q ∷ heap) = let rest = release p heap in if q == p then heap else q ∷ rest

unfoldable pub context_init_with : Args → List ℕ → Allocs → Pktlists → ℕ × Pktlists
context_init_with a name m s =
    let with_ctx = m.ctx ∷ s.heap in
    let with_table = m.table ∷ with_ctx in
    let made : Pktlists = record {
      heap = m.track ∷ with_table;
      contexts = λ p. if m.ctx == p then fill_context a name m.table else s.contexts p;
      instances = (record { address = m.track; ctx = m.ctx }) ∷ s.instances;
    } in
    if m.ctx == 0
    then (0, s)
    else if m.table == 0
    then (0, record s { heap = release m.ctx with_ctx })
    else if m.track == 0
    then (0, record s { heap = release m.ctx (release m.table with_table) })
    else (m.ctx, made)

-- `pktlist_context_init`
unfoldable pub context_init : Args → Allocs → Pktlists → ℕ × Pktlists
context_init a m s = elim a.driver_name [
  | none ↦ (0, s)
  | some name ↦ if a.driver == 0 then (0, s) else context_init_with a name m s
]

-- The loop of pktlist_context_fini: the track of the context, or NULL, and the others.
unfoldable pub untrack : ℕ → List Track → ℕ × List Track
untrack ctx [] = (0, [])
untrack ctx (t ∷ ts) =
    let rest = untrack ctx ts in if t.ctx == ctx then (t.address, ts) else (rest.0, t ∷ rest.1)

-- `pktlist_context_fini`
unfoldable pub context_fini : ℕ → Pktlists → Pktlists
context_fini ctx s =
    let out = untrack ctx s.instances in
    let heap = if out.0 == 0 then s.heap else release out.0 s.heap in
    if ctx == 0
    then s
    else record s { heap = release ctx (release (s.contexts ctx).table heap); instances = out.1 }
