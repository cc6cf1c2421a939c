-- ===== src/D3lut.antt =====
-- The packet-forwarding dictionary of bsp-6.6/compat/wl_compat.c (section B): five pools of 6-byte
-- addresses, each a linked list with its count, policy and key state.
pub mod Keys
pub mod Lookup
pub mod Valid
pub mod Clear
pub mod Reach
use cudy_wr3600_openwrt.Prelude.{
  Bool, List, Memory, Option, [], free_one, get_elem?, granted, if◌then◌else◌, leb, none, request,
  set, some, str_eq, ℕ, ◌%◌, ◌*◌, ◌+◌, ◌-◌, ◌==◌, ◌^◌, ◌||◌, ◌∷◌,
}
use Prim.Native.Nat.{bit_and, bit_or}

-- `struct wl_d3lut_elem` without its link and the fields that this file never touches after the
-- zeroing allocation. `addr` is the number of the request that allocated it, `0` is the NULL of
-- `if_handle` and `virt_net_device`, which wl.ko writes through the pointer that `ins` returns.
pub record Elem : Type 0 where
  pub addr : ℕ
  pub sym : List ℕ
  pub key_v16 : ℕ
  pub if_handle : ℕ
  pub virt_net_device : ℕ

-- One index of the table's arrays; the list is `head` and its `next` links.
pub record Pool : Type 0 where
  pub elems : List Elem
  pub count : ℕ
  pub policy : ℕ
  pub next_idx : ℕ
  pub incarn : ℕ

pub record Table : Type 0 where
  pub pools : List Pool
  pub mem : Memory

abbrev pub pools_n : ℕ
pools_n = 5

abbrev pub elem_max : ℕ
elem_max = 512

-- U32_MAX, the pool argument that means every pool.
abbrev pub any_pool : ℕ
any_pool = 2 ^ 32 - 1

abbrev pub empty_pool : Pool
empty_pool = record { elems = []; count = 0; policy = 0; next_idx = 0; incarn = 0 }

-- The static table, zeroed.
abbrev pub empty_table : Memory → Table
empty_table mem = record {
  pools = empty_pool ∷ empty_pool ∷ empty_pool ∷ empty_pool ∷ empty_pool ∷ [];
  mem = mem;
}

-- `(next_idx & 0x0FFF) | ((uint16_t)incarn << 12) | ((uint16_t)(s & 0x7) << 13)`, stored in 16 bits.
unfoldable pub key_of : ℕ → ℕ → ℕ → ℕ
key_of s next_idx incarn =
    bit_or (bit_or (bit_and next_idx 0x0fff) (incarn * 2 ^ 12)) (bit_and s 0x7 * 2 ^ 13) % 2 ^ 16

-- `if (++next_idx >= WL_D3LUT_ELEM_MAX) next_idx = 0;` on a `uint16_t`.
abbrev pub next_index : ℕ → ℕ
next_index i = let n = (i + 1) % 2 ^ 16 in if leb elem_max n then 0 else n

-- The part of `d3lut_ins` after the allocation, at one pool: `none` when the pool is full.
pub pool_ins : ℕ → ℕ → List ℕ → Pool → Option (Elem × Pool)
pool_ins s addr sym p =
    let e : Elem = record {
      addr = addr;
      sym = sym;
      key_v16 = key_of s p.next_idx p.incarn;
      if_handle = 0;
      virt_net_device = 0;
    } in
    if leb elem_max p.count
    then none
    else some (
      e,
      record p {
        elems = e ∷ p.elems;
        count = (p.count + 1) % 2 ^ 32;
        next_idx = next_index p.next_idx;
      },
    )

-- What `d3lut_ins` does to the table once it has its element.
abbrev pub put_pool : ℕ → Memory → Table → Option (Elem × Pool) → Option Elem × Table
put_pool pool mem t none = (none, record t { mem = free_one mem })
put_pool pool mem t (some (e, p')) = (some e, record t { pools = set t.pools pool p'; mem = mem })

-- `d3lut_ins`. The table pointer is the singleton's or the caller's own table; `policy` is not used.
pub ins : Option (List ℕ) → ℕ → ℕ → Table → Option Elem × Table
ins none pool policy t = (none, t)
ins (some sym) pool policy t = elim (get_elem? t.pools pool) [
  | none ↦ (none, t)
  | some p ↦
      if granted t.mem
      then put_pool pool (request t.mem) t (pool_ins pool t.mem.asked sym p)
      else (none, record t { mem = request t.mem })
]

-- The inner loop of `d3lut_lkup`: the first element of the address.
pub find : List ℕ → List Elem → Option Elem
find sym [] = none
find sym (e ∷ es) = if str_eq e.sym sym then some e else find sym es

-- The outer loop.
pub find_any : List ℕ → List Pool → Option Elem
find_any sym [] = none
find_any sym (p ∷ ps) =
    let rest = find_any sym ps in elim (find sym p.elems) [ some e ↦ some e | none ↦ rest ]

pub lkup : Option (List ℕ) → ℕ → Table → Option Elem
lkup none pool t = none
lkup (some sym) pool t =
    if pool == any_pool
    then find_any sym t.pools
    else elim (get_elem? t.pools pool) [ none ↦ none | some p ↦ find sym p.elems ]

-- The loop of `d3lut_del`: unlink the first match.
pub unlink : List ℕ → List Elem → Option (List Elem)
unlink sym [] = none
unlink sym (e ∷ es) =
    let rest = unlink sym es in
    if str_eq e.sym sym then some es else elim rest [ none ↦ none | some es' ↦ some (e ∷ es') ]

pub pool_del : List ℕ → Pool → Option Pool
pool_del sym p = elim (unlink sym p.elems) [
  | none ↦ none
  | some es ↦ some (record p {
    elems = es;
    count = (p.count + 2 ^ 32 - 1) % 2 ^ 32;
    incarn = (p.incarn + 1) % 256;
  })
]

-- `d3lut_del`, which always returns NULL.
pub del : Option (List ℕ) → ℕ → Table → Table
del none pool t = t
del (some sym) pool t = elim (get_elem? t.pools pool) [
  | none ↦ t
  | some p ↦ elim (pool_del sym p) [
    | none ↦ t
    | some p' ↦ record t { pools = set t.pools pool p'; mem = free_one t.mem }
  ]
]

-- The test of `d3lut_clr`.
abbrev pub clears : ℕ → Bool → Elem → Bool
clears ext ignore e = ignore || e.if_handle == ext || e.virt_net_device == ext

-- The loop of `d3lut_clr` over one list: what stays, the count, and the allocations.
pub clear_list : ℕ → Bool → List Elem → ℕ → Memory → List Elem × ℕ × Memory
clear_list ext ignore [] count mem = ([], count, mem)
clear_list ext ignore (e ∷ es) count mem =
    let gone = clear_list ext ignore es ((count + 2 ^ 32 - 1) % 2 ^ 32) (free_one mem) in
    let rest = clear_list ext ignore es count mem in
    if clears ext ignore e then gone else (e ∷ rest.0, rest.1, rest.2)

pub clear_pools : ℕ → Bool → List Pool → Memory → List Pool × Memory
clear_pools ext ignore [] mem = ([], mem)
clear_pools ext ignore (p ∷ ps) mem =
    let (es, count, mem1) = clear_list ext ignore p.elems p.count mem in
    let (ps', mem2) = clear_pools ext ignore ps mem1 in
    (record p { elems = es; count = count } ∷ ps', mem2)

-- `d3lut_clr`
pub clr : ℕ → Bool → Table → Table
clr ext ignore t =
    let (ps, mem) = clear_pools ext ignore t.pools t.mem in record t { pools = ps; mem = mem }

-- `d3lut_policy_set`
pub policy_set : ℕ → ℕ → Table → Table
policy_set pool policy t = elim (get_elem? t.pools pool) [
  | none ↦ t
  | some p ↦ record t { pools = set t.pools pool (record p { policy = policy }) }
]
