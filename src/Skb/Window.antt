-- ===== src/Skb/Window.antt =====
-- The mutators of shim_skb.c do what the sizes of the buffer allow.
use cudy_wr3600_openwrt.Prelude.{
  Bool-cases, Errno, Option-cases, arith, false, inl, inr, leb, ltb, none, not, refl, some, ℕ, ◌%◌,
  ◌+◌, ◌-◌, ◌==◌, ◌^◌, ◌||◌, ◌≡◌, ◌≢◌,
}
use cudy_wr3600_openwrt.Skb.{Packet, mutable, reserve, put, push, pull, trim, pool_reset}
use cudy_wr3600_openwrt.Skb.Room.{
  Op, do_reserve, do_put, do_push, do_pull, do_trim, do_reset, apply, IsOwned, owned-mutable,
  owned-Bounds, moved-IsOwned, Refined,
}

pub reserve-Refined :
    (vlan_bit n : ℕ) (p : Packet)
    → IsOwned vlan_bit p
    → Refined vlan_bit (do_reserve n) p (reserve vlan_bit n p)
unfolding reserve
reserve-Refined vlan_bit n p v =
    let m = owned-mutable vlan_bit p v in
    let w = owned-Bounds v in
    elim (Bool-cases (not (p.len == 0) || ltb (p.end_at - p.tail) n)) [
      | inl full ↦ rw (m, Refined, reserve, full) (refl, ground (arith, w))
      | inr fits ↦
          rw (m, Refined, reserve, fits)
            (
              moved-IsOwned vlan_bit p (p.data_at + n) (p.tail + n) (p.len) v (ground (arith, w))
                  (ground (arith, w)) (ground (arith, w)),
              refl,
              ground (arith, w),
            )
    ]

put-Refined :
    (vlan_bit n : ℕ) (p : Packet)
    → IsOwned vlan_bit p
    → Refined vlan_bit (do_put n) p (put vlan_bit n p)
unfolding put
put-Refined vlan_bit n p v =
    let m = owned-mutable vlan_bit p v in
    let w = owned-Bounds v in
    elim (Bool-cases (ltb (p.end_at - p.tail) n)) [
      | inl full ↦ rw (m, Refined, put, full) (refl, ground (arith, w))
      | inr fits ↦
          rw (m, Refined, put, fits)
            (
              moved-IsOwned vlan_bit p (p.data_at) (p.tail + n) ((p.len + n) % 2 ^ 32) v
                  (ground (arith, w)) (ground (arith, w)) (ground (arith, w)),
              refl,
              ground (arith, w),
            )
    ]

push-Refined :
    (vlan_bit n : ℕ) (p : Packet)
    → IsOwned vlan_bit p
    → Refined vlan_bit (do_push n) p (push vlan_bit n p)
unfolding push
push-Refined vlan_bit n p v =
    let m = owned-mutable vlan_bit p v in
    let w = owned-Bounds v in
    elim (Bool-cases (ltb (p.data_at - p.head) n)) [
      | inl full ↦ rw (m, Refined, push, full) (refl, ground (arith, w))
      | inr fits ↦
          rw (m, Refined, push, fits)
            (
              moved-IsOwned vlan_bit p (p.data_at - n) (p.tail) ((p.len + n) % 2 ^ 32) v
                  (ground (arith, w)) (ground (arith, w)) (ground (arith, w)),
              refl,
              ground (arith, w),
            )
    ]

pull-Refined :
    (vlan_bit n : ℕ) (p : Packet)
    → IsOwned vlan_bit p
    → Refined vlan_bit (do_pull n) p (pull vlan_bit n p)
unfolding pull
pull-Refined vlan_bit n p v =
    let m = owned-mutable vlan_bit p v in
    let w = owned-Bounds v in
    elim (Bool-cases (ltb p.len n)) [
      | inl full ↦ rw (m, Refined, pull, full) (refl, ground (arith, w))
      | inr fits ↦
          rw (m, Refined, pull, fits)
            (
              moved-IsOwned vlan_bit p (p.data_at + n) (p.tail) (p.len - n) v (ground (arith, w))
                  (ground (arith, w)) (ground (arith, w)),
              refl,
              ground (arith, w),
            )
    ]

trim-Refined :
    (vlan_bit n : ℕ) (p : Packet)
    → IsOwned vlan_bit p
    → Refined vlan_bit (do_trim n) p (trim vlan_bit n p)
unfolding trim
trim-Refined vlan_bit n p v =
    let m = owned-mutable vlan_bit p v in
    let w = owned-Bounds v in
    elim (Bool-cases (leb p.len n)) [
      | inl full ↦ rw (m, Refined, trim, full) (v, refl, ground (arith, w))
      | inr fits ↦
          rw (m, Refined, trim, fits)
            (
              moved-IsOwned vlan_bit p (p.data_at) (p.data_at + n) (n) v (ground (arith, w))
                  (ground (arith, w)) (ground (arith, w)),
              refl,
              ground (arith, w),
            )
    ]

pool_reset-Refined :
    (vlan_bit headroom n : ℕ) (p : Packet)
    → IsOwned vlan_bit p
    → Refined vlan_bit (do_reset headroom n) p (pool_reset vlan_bit headroom n p)
unfolding pool_reset
pool_reset-Refined vlan_bit headroom n p v =
    let m = owned-mutable vlan_bit p v in
    let w = owned-Bounds v in
    let alone : (p.cloned || not (p.dataref == 1)) ≡ false =
      ground (arith, v.uncloned, v.unshared) in
    elim (Bool-cases (ltb p.capacity headroom || ltb (p.capacity - headroom) n)) [
      | inl full ↦ rw (m, Refined, pool_reset, alone, full) (refl, ground (arith, w))
      | inr fits ↦
          rw (m, Refined, pool_reset, alone, fits)
            (
              moved-IsOwned vlan_bit p (p.base + headroom) (p.base + headroom + n) (n) v
                  (ground (arith, w)) (ground (arith, w)) (ground (arith, w)),
              refl,
              ground (arith, w),
            )
    ]

-- On a packet that the shim accepts and that one holder has to itself, each mutator does what the sizes
-- of the buffer allow: where there is room it succeeds and moves the window as promised, within the
-- same buffer, and the packet is as acceptable as before; else it refuses and changes nothing.
pub apply-Refined :
    (vlan_bit : ℕ) (op : Op) (p : Packet)
    → IsOwned vlan_bit p
    → Refined vlan_bit op p (apply vlan_bit op p)
unfolding apply
apply-Refined vlan_bit (do_reserve n) p v = reserve-Refined vlan_bit n p v
apply-Refined vlan_bit (do_put n) p v = put-Refined vlan_bit n p v
apply-Refined vlan_bit (do_push n) p v = push-Refined vlan_bit n p v
apply-Refined vlan_bit (do_pull n) p v = pull-Refined vlan_bit n p v
apply-Refined vlan_bit (do_trim n) p v = trim-Refined vlan_bit n p v
apply-Refined vlan_bit (do_reset headroom n) p v = pool_reset-Refined vlan_bit headroom n p v

refused_at :
    (vlan_bit : ℕ) (op : Op) (p : Packet) (e : Errno)
    → mutable vlan_bit p ≡ some e
    → apply vlan_bit op p ≡ (false, p)
unfolding apply reserve put push pull trim pool_reset
refused_at vlan_bit (do_reserve n) p e bad = rw (bad, reserve) refl
refused_at vlan_bit (do_put n) p e bad = rw (bad, put) refl
refused_at vlan_bit (do_push n) p e bad = rw (bad, push) refl
refused_at vlan_bit (do_pull n) p e bad = rw (bad, pull) refl
refused_at vlan_bit (do_trim n) p e bad = rw (bad, trim) refl
refused_at vlan_bit (do_reset headroom n) p e bad = rw (bad, pool_reset) refl

-- What the shim does not accept, or another holder shares, no mutator touches.
pub apply_refused :
    (vlan_bit : ℕ) (op : Op) (p : Packet)
    → mutable vlan_bit p ≢ none
    → apply vlan_bit op p ≡ (false, p)
apply_refused vlan_bit op p h = elim (Option-cases (mutable vlan_bit p)) [
  | inl good ↦ absurd (h good)
  | inr (e, bad) ↦ refused_at vlan_bit op p e bad
]
