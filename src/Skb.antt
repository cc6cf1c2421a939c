-- ===== src/Skb.antt =====
-- Legacy packet descriptors of bsp-6.6/compat/shim_skb.c: one descriptor with its data block, what the
-- shim accepts of it, and the edits of its linear window. Addresses are numbers; the data block starts
-- at `base`, and its shared info stands at `base + capacity`.
pub mod Accepted
pub mod Room
pub mod Create
pub mod Heap
pub mod Window
use cudy_wr3600_openwrt.Prelude.{
  false, ltb, Bool, Errno, List, Option, [], ebusy, einval, eopnotsupp, euclean, if◌then◌else◌, leb,
  none, not, some, true, ℕ, ◌%◌, ◌&&◌, ◌+◌, ◌-◌, ◌/◌, ◌==◌, ◌^◌, ◌||◌, ◌∷◌,
}

-- The fields of a `struct skb419_entry`, of the view's bytes and of the data block that the shim reads.
pub record Packet : Type 0 where
  pub registered : Bool  -- `shim_skb_is_legacy`
  pub before : ℕ
  pub after : ℕ
  pub has_data : Bool
  pub guard : ℕ
  pub users : ℕ
  pub dataref : ℕ
  pub base : ℕ
  pub capacity : ℕ
  pub head : ℕ
  pub data_at : ℕ
  pub tail : ℕ
  pub end_at : ℕ
  pub len : ℕ
  pub data_len : ℕ
  pub nr_frags : ℕ
  pub frag_list : ℕ
  pub head_frag : Bool
  pub info_low : List ℕ  -- the shared info's bytes from the word after the first up to `gso_size`
  pub info_high : List ℕ  -- those from `destructor_arg` on
  pub gso_size : ℕ
  pub gso_segs : ℕ
  pub gso_type : ℕ
  pub hwtstamp : ℕ
  pub tskey : ℕ
  pub cfi_save : ℕ
  pub ext_low : List ℕ  -- the vendor extension's bytes on either side of `cfi_save`
  pub ext_high : List ℕ
  pub recycle_flags : ℕ
  pub refs : List ℕ  -- the seven pointers to counted objects
  pub cloned : Bool
  pub truesize : ℕ

-- `memchr_inv(p, 0, n)` finds nothing.
pub all_zero : List ℕ → Bool
all_zero [] = true
all_zero (b ∷ bs) = b == 0 && all_zero bs

-- `skb419_gso_check`; the types known are those below bit 18.
pub gso_check : ℕ → ℕ → ℕ → Option Errno
gso_check size segs type =
    let unknown = not (type / 2 ^ 18 == 0) in
    if size == 0
    then if unknown then some eopnotsupp else none
    else if type == 0 || unknown
    then some eopnotsupp
    else none

-- `skb419_vlan_cfi`, whose offset test is between constants: only the DEI bit, number `vlan_bit`, may
-- be set.
pub vlan_cfi : ℕ → ℕ → Option Errno
vlan_cfi vlan_bit word = if word == 0 || word == 2 ^ vlan_bit then none else some eopnotsupp

-- SK419_GUARD
abbrev pub magic : ℕ
magic = 0x4c6567616379534b

-- A chain of tests: the first error.
abbrev pub or_next : Option Errno → Option Errno → Option Errno
or_next none next = next
or_next (some e) next = some e

abbrev pub unless : Bool → Errno → Option Errno
unless good e = if good then none else some e

-- The tests of `skb419_validate`: the guards and the counts, the window, linearity, the time stamps, and
-- the state without a translation.
pub is_sound : Packet → Bool
is_sound p =
    p.before == magic
    && p.after == magic
    && p.has_data
    && p.guard == magic
    && not (p.users == 0)
    && not (p.dataref % 2 ^ 16 == 0)

pub in_window : Packet → Bool
in_window p =
    p.head == p.base
    && p.end_at == p.base + p.capacity
    && leb p.head p.data_at
    && leb p.data_at p.tail
    && leb p.tail p.end_at
    && p.tail - p.data_at == p.len

pub is_flat : Packet → Bool
is_flat p =
    p.data_len == 0
    && p.nr_frags == 0
    && p.frag_list == 0
    && not p.head_frag
    && all_zero p.info_low
    && all_zero p.info_high

pub no_time : Packet → Bool
no_time p = p.hwtstamp == 0 && p.tskey == 0

pub no_state : Packet → Bool
no_state p = all_zero p.ext_low && all_zero p.ext_high && p.recycle_flags == 0 && all_zero p.refs

-- `skb419_validate`
pub validate : ℕ → Packet → Option Errno
validate vlan_bit p = or_next (unless p.registered einval) (
    or_next (unless (is_sound p) euclean) (
      or_next (unless (in_window p) einval) (
        or_next (unless (is_flat p) eopnotsupp) (
          or_next (gso_check p.gso_size p.gso_segs p.gso_type) (
            or_next (unless (no_time p) eopnotsupp)
              (or_next (vlan_cfi vlan_bit p.cfi_save) (unless (no_state p) eopnotsupp)))))))

-- `skb419_mutable`
pub mutable : ℕ → Packet → Option Errno
mutable vlan_bit p = or_next (validate vlan_bit p) (unless (p.users == 1) ebusy)

-- A mutator: whether it returns 0, or a pointer that is not NULL, and the packet.
abbrev pub refuse : Packet → Bool × Packet
refuse p = (false, p)

-- `shim_skb_reserve`
pub reserve : ℕ → ℕ → Packet → Bool × Packet
reserve vlan_bit n p =
    let q = record p { data_at = p.data_at + n; tail = p.tail + n } in
    elim (mutable vlan_bit p) [
      | some e ↦ refuse p
      | none ↦ if not (p.len == 0) || ltb (p.end_at - p.tail) n then refuse p else (true, q)
    ]

-- `shim_skb_put`
pub put : ℕ → ℕ → Packet → Bool × Packet
put vlan_bit n p =
    let q = record p { tail = p.tail + n; len = (p.len + n) % 2 ^ 32 } in
    elim (mutable vlan_bit p) [
      | some e ↦ refuse p
      | none ↦ if ltb (p.end_at - p.tail) n then refuse p else (true, q)
    ]

-- `shim_skb_push`
pub push : ℕ → ℕ → Packet → Bool × Packet
push vlan_bit n p =
    let q = record p { data_at = p.data_at - n; len = (p.len + n) % 2 ^ 32 } in
    elim (mutable vlan_bit p) [
      | some e ↦ refuse p
      | none ↦ if ltb (p.data_at - p.head) n then refuse p else (true, q)
    ]

-- `shim_skb_pull`
pub pull : ℕ → ℕ → Packet → Bool × Packet
pull vlan_bit n p =
    let q = record p { data_at = p.data_at + n; len = p.len - n } in
    elim (mutable vlan_bit p) [
      | some e ↦ refuse p
      | none ↦ if ltb p.len n then refuse p else (true, q)
    ]

-- `shim_skb_trim`
pub trim : ℕ → ℕ → Packet → Bool × Packet
trim vlan_bit n p =
    let q = record p { tail = p.data_at + n; len = n } in
    elim (mutable vlan_bit p) [
      | some e ↦ refuse p
      | none ↦ if leb p.len n then (true, p) else (true, q)
    ]

-- `shim_skb_pool_reset`
pub pool_reset : ℕ → ℕ → ℕ → Packet → Bool × Packet
pool_reset vlan_bit headroom n p =
    let q = record p { data_at = p.base + headroom; tail = p.base + headroom + n; len = n } in
    elim (mutable vlan_bit p) [
      | some e ↦ refuse p
      | none ↦
          if p.cloned || not (p.dataref == 1)
          then refuse p
          else if ltb p.capacity headroom || ltb (p.capacity - headroom) n
          then refuse p
          else (true, q)
    ]
