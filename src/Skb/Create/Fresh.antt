-- ===== src/Skb/Create/Fresh.antt =====
-- What shim_skb.c's allocators return.
use cudy_wr3600_openwrt.Prelude.{
  ap, sym, ◌∙◌, Bool, false, free_one, if◌then◌else◌, leb, true, Bool-cases, Memory, Option, arith,
  granted, inl, inr, none, refl, request, some, suc, zero, ℕ, ◌+◌, ◌<◌, ◌^◌, ◌≡◌, ◌≤◌,
}
use mathlib.Core.Option.{some-injective}
use cudy_wr3600_openwrt.Skb.{Packet, reserve}
use cudy_wr3600_openwrt.Skb.Accepted.{Zeros}
use cudy_wr3600_openwrt.Skb.Room.{room_of, do_reserve, IsOwned, Refined}
use cudy_wr3600_openwrt.Skb.Window.{reserve-Refined}
use cudy_wr3600_openwrt.Skb.Create.{
  Layout, zeros, round_up, overflows, created, alloc, netdev_alloc,
}

zeros-Zeros : (n : ℕ) → Zeros (zeros n)
zeros-Zeros zero = tt
zeros-Zeros (suc n) = (refl, zeros-Zeros n)

pub created-IsOwned :
    (vlan_bit : ℕ) (l : Layout) (base capacity : ℕ)
    → capacity < 2 ^ 32
    → IsOwned vlan_bit (created l base capacity)
unfolding created
created-IsOwned vlan_bit l base capacity h = record {
  linear = record {
    registered = refl;
    before = refl;
    after = refl;
    has_data = refl;
    guard = refl;
    used = λ e. absurd (omega (arith, e));
    referenced = λ e. absurd (omega (arith, e));
    head = refl;
    end_at = refl;
    starts = omega arith;
    ends = omega arith;
    inside = omega arith;
    flat = refl;
    no_frags = refl;
    no_list = refl;
    own_head = refl;
    info_low = zeros-Zeros l.info_low_n;
    info_high = zeros-Zeros l.info_high_n;
    known_type = omega arith;
    typed = inl refl;
    no_stamp = refl;
    no_key = refl;
    dei_only = inl refl;
    ext_low = zeros-Zeros l.ext_low_n;
    ext_high = zeros-Zeros l.ext_high_n;
    not_pooled = refl;
    no_refs = zeros-Zeros 7;
  };
  sole = refl;
  unshared = refl;
  uncloned = refl;
  small = h;
}

-- A new packet with `front` bytes of headroom, no data and room for `size` bytes, less than 64 of them
-- more than asked for; a failed allocation leaves nothing allocated.
abbrev pub Allocated : ℕ → ℕ → ℕ → Memory → Option Packet × Memory → Type 0
Allocated vlan_bit front size mem (none, mem') = mem'.live ≡ mem.live
Allocated vlan_bit front size mem (some p, mem') =
    IsOwned vlan_bit p
    × ((room_of p).front ≡ front)
    × (p.len ≡ 0)
    × (size ≤ (room_of p).back)
    × ((room_of p).back < size + 64)
    × (mem'.live ≡ mem.live + 2)

pub uncloned_of :
    (vlan_bit front size : ℕ) (mem : Memory) (r : Option Packet × Memory) (p : Packet)
    → Allocated vlan_bit front size mem r
    → r.0 ≡ some p
    → p.cloned ≡ false
uncloned_of vlan_bit front size mem (none, m) p a e = absurd (ground (arith, e))
uncloned_of vlan_bit front size mem (some q, m) p a e =
    ap (λ r. r.cloned) (sym (some-injective _ _ e)) ∙ a.0.uncloned

pub alloc-Allocated :
    (vlan_bit : ℕ) (l : Layout) (base size : ℕ) (mem : Memory)
    → Allocated vlan_bit 0 size mem (alloc l base size mem)
unfolding alloc overflows created
alloc-Allocated vlan_bit l base size mem = elim (Bool-cases (overflows l size)) [
  | inl over ↦ rw (over, Allocated, alloc) refl
  | inr under ↦ elim (Bool-cases (granted mem)) [
    | inr refused ↦ rw (under, Allocated, alloc, refused) (ground arith)
    | inl entry ↦ elim (Bool-cases (granted (request mem))) [
      | inr refused ↦ rw (under, Allocated, alloc, entry, refused) (ground arith)
      | inl both ↦
          rw (under, Allocated, alloc, entry, both)
            (
              created-IsOwned vlan_bit l base (round_up size) (ground arith),
              omega arith,
              refl,
              omega arith,
              omega arith,
              omega arith,
            )
    ]
  ]
]

reserved_at :
    (vlan_bit pad len : ℕ) (mem mem' : Memory) (p : Packet) (q : Bool × Packet)
    → IsOwned vlan_bit p
    → (room_of p).front ≡ 0
    → p.len ≡ 0
    → len + pad ≤ (room_of p).back
    → (room_of p).back < len + pad + 64
    → mem'.live ≡ mem.live + 2
    → Refined vlan_bit (do_reserve pad) p q
    → Allocated vlan_bit pad len mem
        (if q.0 then (some q.1, mem') else (none, free_one (free_one mem')))
reserved_at vlan_bit pad len mem mem' p (false, q) v front empty most least live (same, missing) =
    absurd (ground (arith, front, empty, most, missing))
reserved_at vlan_bit pad len mem mem' p (true, q) v front empty most least live (owned, cap, to) = (
  owned,
  ground (arith, front, empty, most, to),
  ground (arith, empty, most, to),
  ground (arith, empty, most, to),
  ground (arith, empty, most, least, to),
  live,
)

-- Reserving the pad in front of a new packet.
reserved :
    (vlan_bit pad len : ℕ) (mem : Memory) (r : Option Packet × Memory)
    → Allocated vlan_bit 0 (len + pad) mem r
    → Allocated vlan_bit pad len mem (elim r.0 as (λ x. Option Packet × Memory) [
      | none ↦ (none, r.1)
      | some p ↦
          if (reserve vlan_bit pad p).0
          then (some (reserve vlan_bit pad p).1, r.1)
          else (none, free_one (free_one r.1))
    ])
reserved vlan_bit pad len mem (none, mem') a = a
reserved vlan_bit pad len mem (some p, mem') (owned, front, empty, most, least, live) =
    reserved_at vlan_bit pad len mem mem' p (reserve vlan_bit pad p) owned front empty most least
      live (reserve-Refined vlan_bit pad p owned)

-- An allocation for a device has the pad in front and room for the payload behind it; the pad's
-- reservation in the new packet is never refused, and a failed allocation leaves nothing allocated.
pub netdev_alloc-Allocated :
    (vlan_bit skb_pad : ℕ) (l : Layout) (base len : ℕ) (mem : Memory)
    → Allocated vlan_bit skb_pad len mem (netdev_alloc vlan_bit skb_pad l base len mem)
unfolding netdev_alloc
netdev_alloc-Allocated vlan_bit skb_pad l base len mem =
    elim (Bool-cases (leb (2 ^ 32) (len + skb_pad))) [
      | inl over ↦ rw (over, Allocated, netdev_alloc) refl
      | inr under ↦
          rw (under, Allocated, netdev_alloc)
            (reserved vlan_bit skb_pad len mem (alloc l base (len + skb_pad) mem)
              (alloc-Allocated vlan_bit l base (len + skb_pad) mem))
    ]
