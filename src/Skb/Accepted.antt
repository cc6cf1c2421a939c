-- ===== src/Skb/Accepted.antt =====
-- What `skb419_validate` of shim_skb.c accepts, without the order of its tests.
use cudy_wr3600_openwrt.Prelude.{
  einval, eopnotsupp, euclean, All, Bool, Errno, List, Option, [], arith, false, none, some, true,
  ℕ, ◌%◌, ◌+◌, ◌<◌, ◌^◌, ◌↔◌, ◌∷◌, ◌≡◌, ◌≢◌, ◌≤◌, ◌⊎◌,
}
use cudy_wr3600_openwrt.Skb.{
  Packet, all_zero, gso_check, vlan_cfi, magic, or_next, unless, is_sound, in_window, is_flat,
  no_time, no_state, validate,
}

abbrev pub Zeros : List ℕ → Type 0
Zeros = All (λ b. b ≡ 0)

-- A linear packet with sound guards and counts, a window inside its buffer, a known segmentation
-- type, and none of the state that has no translation.
pub record IsLinear (vlan_bit : ℕ) (p : Packet) : Type 0 where
  pub registered : p.registered ≡ true
  pub before : p.before ≡ magic
  pub after : p.after ≡ magic
  pub has_data : p.has_data ≡ true
  pub guard : p.guard ≡ magic
  pub used : p.users ≢ 0
  pub referenced : p.dataref % 2 ^ 16 ≢ 0
  pub head : p.head ≡ p.base
  pub end_at : p.end_at ≡ p.base + p.capacity
  pub starts : p.base ≤ p.data_at
  pub ends : p.data_at + p.len ≡ p.tail
  pub inside : p.tail ≤ p.base + p.capacity
  pub flat : p.data_len ≡ 0
  pub no_frags : p.nr_frags ≡ 0
  pub no_list : p.frag_list ≡ 0
  pub own_head : p.head_frag ≡ false
  pub info_low : Zeros p.info_low
  pub info_high : Zeros p.info_high
  pub known_type : p.gso_type < 2 ^ 18
  pub typed : (p.gso_size ≡ 0) ⊎ (p.gso_type ≢ 0)
  pub no_stamp : p.hwtstamp ≡ 0
  pub no_key : p.tskey ≡ 0
  pub dei_only : (p.cfi_save ≡ 0) ⊎ (p.cfi_save ≡ 2 ^ vlan_bit)
  pub ext_low : Zeros p.ext_low
  pub ext_high : Zeros p.ext_high
  pub not_pooled : p.recycle_flags ≡ 0
  pub no_refs : Zeros p.refs

all_zero_iff : (bs : List ℕ) → (all_zero bs ≡ true) ↔ Zeros bs
unfolding all_zero
all_zero_iff [] = ground arith
all_zero_iff (b ∷ bs) = ground (arith, all_zero_iff bs)

gso_check_iff :
    (size segs type : ℕ)
    → (gso_check size segs type ≡ none) ↔ ((type < 2 ^ 18) × ((size ≡ 0) ⊎ (type ≢ 0)))
unfolding gso_check
gso_check_iff size segs type = ground arith

vlan_cfi_iff :
    (vlan_bit word : ℕ) → (vlan_cfi vlan_bit word ≡ none) ↔ ((word ≡ 0) ⊎ (word ≡ 2 ^ vlan_bit))
unfolding vlan_cfi
vlan_cfi_iff vlan_bit word = ground arith

pub or_next_iff : (a b : Option Errno) → (or_next a b ≡ none) ↔ ((a ≡ none) × (b ≡ none))
or_next_iff none b = ground arith
or_next_iff (some e) b = ground arith

pub unless_iff : (good : Bool) (e : Errno) → (unless good e ≡ none) ↔ (good ≡ true)
unless_iff good e = ground arith

sound_iff :
    (p : Packet)
    → (is_sound p ≡ true) ↔ (
        (p.before ≡ magic)
        × (p.after ≡ magic)
        × (p.has_data ≡ true)
        × (p.guard ≡ magic)
        × (p.users ≢ 0)
        × (p.dataref % 2 ^ 16 ≢ 0))
unfolding is_sound
sound_iff p = ground arith

window_iff :
    (p : Packet)
    → (in_window p ≡ true) ↔ (
        (p.head ≡ p.base)
        × (p.end_at ≡ p.base + p.capacity)
        × (p.base ≤ p.data_at)
        × (p.data_at + p.len ≡ p.tail)
        × (p.tail ≤ p.base + p.capacity))
unfolding in_window
window_iff p = ground arith

flat_iff :
    (p : Packet)
    → (is_flat p ≡ true) ↔ (
        (p.data_len ≡ 0)
        × (p.nr_frags ≡ 0)
        × (p.frag_list ≡ 0)
        × (p.head_frag ≡ false)
        × Zeros p.info_low
        × Zeros p.info_high)
unfolding is_flat
flat_iff p = ground (arith, all_zero_iff p.info_low, all_zero_iff p.info_high)

state_iff :
    (p : Packet)
    → (no_state p ≡ true)
      ↔ (Zeros p.ext_low × Zeros p.ext_high × (p.recycle_flags ≡ 0) × Zeros p.refs)
unfolding no_state
state_iff p = ground (arith, all_zero_iff p.ext_low, all_zero_iff p.ext_high, all_zero_iff p.refs)

validate-IsLinear : (vlan_bit : ℕ) (p : Packet) → validate vlan_bit p ≡ none → IsLinear vlan_bit p
unfolding validate no_time
validate-IsLinear vlan_bit p e =
    let (r, e1) = (or_next_iff _ _).0 e in
    let (g, e2) = (or_next_iff _ _).0 e1 in
    let (w, e3) = (or_next_iff _ _).0 e2 in
    let (f, e4) = (or_next_iff _ _).0 e3 in
    let (k, e5) = (or_next_iff _ _).0 e4 in
    let (t, e6) = (or_next_iff _ _).0 e5 in
    let (c, s) = (or_next_iff _ _).0 e6 in
    let (before, after, has_data, guard, used, referenced) =
      (sound_iff p).0 ((unless_iff _ _).0 g) in
    let (head, end_at, starts, ends, inside) = (window_iff p).0 ((unless_iff _ _).0 w) in
    let (flat, no_frags, no_list, own_head, low, high) = (flat_iff p).0 ((unless_iff _ _).0 f) in
    let (known, typed) = (gso_check_iff p.gso_size p.gso_segs p.gso_type).0 k in
    let (ext_low, ext_high, pool, refs) = (state_iff p).0 ((unless_iff _ _).0 s) in
    record {
      registered = (unless_iff _ _).0 r;
      before = before;
      after = after;
      has_data = has_data;
      guard = guard;
      used = used;
      referenced = referenced;
      head = head;
      end_at = end_at;
      starts = starts;
      ends = ends;
      inside = inside;
      flat = flat;
      no_frags = no_frags;
      no_list = no_list;
      own_head = own_head;
      info_low = low;
      info_high = high;
      known_type = known;
      typed = typed;
      no_stamp = ground (arith, t);
      no_key = ground (arith, t);
      dei_only = (vlan_cfi_iff vlan_bit p.cfi_save).0 c;
      ext_low = ext_low;
      ext_high = ext_high;
      not_pooled = pool;
      no_refs = refs;
    }

IsLinear-validate : (vlan_bit : ℕ) (p : Packet) → IsLinear vlan_bit p → validate vlan_bit p ≡ none
unfolding validate no_time
IsLinear-validate vlan_bit p v =
    let m = (unless_iff p.registered einval).1 v.registered in
    let g =
      (unless_iff (is_sound p) euclean).1
        ((sound_iff p).1 (v.before, v.after, v.has_data, v.guard, v.used, v.referenced)) in
    let w =
      (unless_iff (in_window p) einval).1
        ((window_iff p).1 (v.head, v.end_at, v.starts, v.ends, v.inside)) in
    let f =
      (unless_iff (is_flat p) eopnotsupp).1
        ((flat_iff p).1 (v.flat, v.no_frags, v.no_list, v.own_head, v.info_low, v.info_high)) in
    let k = (gso_check_iff p.gso_size p.gso_segs p.gso_type).1 (v.known_type, v.typed) in
    let t : unless (no_time p) eopnotsupp ≡ none = ground (arith, v.no_stamp, v.no_key) in
    let c = (vlan_cfi_iff vlan_bit p.cfi_save).1 v.dei_only in
    let s =
      (unless_iff (no_state p) eopnotsupp).1
        ((state_iff p).1 (v.ext_low, v.ext_high, v.not_pooled, v.no_refs)) in
    (or_next_iff _ _).1 (
      m,
      (or_next_iff _ _).1 (
        g,
        (or_next_iff _ _).1 (
          w,
          (or_next_iff _ _).1
              (f, (or_next_iff _ _).1 (k, (or_next_iff _ _).1 (t, (or_next_iff _ _).1 (c, s)))),
        ),
      ),
    )

-- The shim accepts a descriptor exactly when all the conditions of `IsLinear` hold.
pub validate_iff : (vlan_bit : ℕ) (p : Packet) → (validate vlan_bit p ≡ none) ↔ IsLinear vlan_bit p
validate_iff vlan_bit p = (validate-IsLinear vlan_bit p, IsLinear-validate vlan_bit p)
