-- ===== src/Skb/Room.antt =====
-- The three sizes of a linear buffer of shim_skb.c, headroom, data and tailroom, and what each mutator
-- promises of them.
use cudy_wr3600_openwrt.Prelude.{
  ebusy, ◌≢◌, Bool, Option, arith, false, if◌then◌else◌, leb, none, some, true, ℕ, ◌&&◌, ◌+◌, ◌-◌,
  ◌<◌, ◌==◌, ◌^◌, ◌≡◌, ◌≤◌,
}
use cudy_wr3600_openwrt.Skb.{Packet, mutable, reserve, put, push, pull, trim, pool_reset}
use cudy_wr3600_openwrt.Skb.Accepted.{IsLinear, validate_iff, or_next_iff, unless_iff}

pub record Room : Type 0 where
  pub front : ℕ
  pub used : ℕ
  pub back : ℕ

abbrev pub room_of : Packet → Room
room_of p = record { front = p.data_at - p.base; used = p.len; back = p.base + p.capacity - p.tail }

pub data Op : Type 0 where
  do_reserve do_put do_push do_pull do_trim : ℕ → Op
  do_reset : ℕ → ℕ → Op

-- What an operation promises of the sizes; `none` is a refusal.
abbrev pub room_step : Op → Room → Option Room
room_step (do_reserve n) r =
    if r.used == 0 && leb n r.back
    then some (record { front = r.front + n; used = 0; back = r.back - n })
    else none
room_step (do_put n) r =
    if leb n r.back
    then some (record { front = r.front; used = r.used + n; back = r.back - n })
    else none
room_step (do_push n) r =
    if leb n r.front
    then some (record { front = r.front - n; used = r.used + n; back = r.back })
    else none
room_step (do_pull n) r =
    if leb n r.used
    then some (record { front = r.front + n; used = r.used - n; back = r.back })
    else none
room_step (do_trim n) r =
    some (
      if leb r.used n
      then r
      else record { front = r.front; used = n; back = r.back + (r.used - n) })
room_step (do_reset headroom n) r =
    if leb (headroom + n) (r.front + r.used + r.back)
    then some
        (record { front = headroom; used = n; back = r.front + r.used + r.back - headroom - n })
    else none

unfoldable pub apply : ℕ → Op → Packet → Bool × Packet
apply vlan_bit (do_reserve n) p = reserve vlan_bit n p
apply vlan_bit (do_put n) p = put vlan_bit n p
apply vlan_bit (do_push n) p = push vlan_bit n p
apply vlan_bit (do_pull n) p = pull vlan_bit n p
apply vlan_bit (do_trim n) p = trim vlan_bit n p
apply vlan_bit (do_reset headroom n) p = pool_reset vlan_bit headroom n p

-- A packet that the shim accepts and that one holder has to itself.
pub record IsOwned (vlan_bit : ℕ) (p : Packet) : Type 0 where
  pub linear : IsLinear vlan_bit p
  pub sole : p.users ≡ 1
  pub unshared : p.dataref ≡ 1
  pub uncloned : p.cloned ≡ false
  pub small : p.capacity < 2 ^ 32

pub owned-mutable : (vlan_bit : ℕ) (p : Packet) → IsOwned vlan_bit p → mutable vlan_bit p ≡ none
unfolding mutable
owned-mutable vlan_bit p v =
    let good = (validate_iff vlan_bit p).1 v.linear in rw good (ground (arith, v.sole))

-- The facts of a packet's window that arithmetic needs.
abbrev pub Bounds : Packet → Type 0
Bounds p =
    (p.end_at ≡ p.base + p.capacity)
    × (p.data_at + p.len ≡ p.tail)
    × (p.tail ≤ p.base + p.capacity)
    × (p.base ≤ p.data_at)
    × (p.head ≡ p.base)
    × (p.capacity < 2 ^ 32)

pub owned-Bounds : {vlan_bit : ℕ} {p : Packet} → IsOwned vlan_bit p → Bounds p
owned-Bounds v =
    (v.linear.end_at, v.linear.ends, v.linear.inside, v.linear.starts, v.linear.head, v.small)

-- The window of a packet moved within its buffer.
pub moved-IsOwned :
    (vlan_bit : ℕ) (p : Packet) (data_at tail len : ℕ)
    → IsOwned vlan_bit p
    → p.base ≤ data_at
    → data_at + len ≡ tail
    → tail ≤ p.base + p.capacity
    → IsOwned vlan_bit (record p { data_at = data_at; tail = tail; len = len })
moved-IsOwned vlan_bit p data_at tail len v a b c = record {
  linear = record {
    registered = v.linear.registered;
    before = v.linear.before;
    after = v.linear.after;
    has_data = v.linear.has_data;
    guard = v.linear.guard;
    used = v.linear.used;
    referenced = v.linear.referenced;
    head = v.linear.head;
    end_at = v.linear.end_at;
    starts = a;
    ends = b;
    inside = c;
    flat = v.linear.flat;
    no_frags = v.linear.no_frags;
    no_list = v.linear.no_list;
    own_head = v.linear.own_head;
    info_low = v.linear.info_low;
    info_high = v.linear.info_high;
    known_type = v.linear.known_type;
    typed = v.linear.typed;
    no_stamp = v.linear.no_stamp;
    no_key = v.linear.no_key;
    dei_only = v.linear.dei_only;
    ext_low = v.linear.ext_low;
    ext_high = v.linear.ext_high;
    not_pooled = v.linear.not_pooled;
    no_refs = v.linear.no_refs;
  };
  sole = v.sole;
  unshared = v.unshared;
  uncloned = v.uncloned;
  small = v.small;
}

-- What an operation reports and did.
abbrev pub Refined : ℕ → Op → Packet → Bool × Packet → Type 0
Refined vlan_bit op p (false, q) = (q ≡ p) × (room_step op (room_of p) ≡ none)
Refined vlan_bit op p (true, q) =
    IsOwned vlan_bit q × (q.capacity ≡ p.capacity) × (room_step op (room_of p) ≡ some (room_of q))

pub mutable_shared : (vlan_bit : ℕ) (p : Packet) → p.users ≢ 1 → mutable vlan_bit p ≢ none
unfolding mutable
mutable_shared vlan_bit p h e =
    let one = (unless_iff (p.users == 1) ebusy).0 ((or_next_iff _ _).0 e).1 in h (ground arith)
