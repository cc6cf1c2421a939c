-- ===== src/Dma/Registry.antt =====
-- The registry of shim_dma.c as a map from keys to native devices.
use cudy_wr3600_openwrt.Prelude.{
  All-get_elem?, Bool-cases, Errno, List, Option, Result, arith, einval, enospc, err, if◌then◌else◌,
  inl, inr, none, ok, refl, some, sum_of, sum_of-set, ℕ, ◌+◌, ◌==◌, ◌||◌, ◌≡◌, ◌≢◌, ◌⊎◌,
}
use cudy_wr3600_openwrt.Dma.{eexist, Dma, scan, bind_at, bind, unbind, put_device}
use cudy_wr3600_openwrt.Slots.{Slot, take_out, value_of}
use cudy_wr3600_openwrt.Slots.Laws.{
  keyed, holds, IsSlot, IsRegistry, value_of-keyed, value_of-set, TakenOut, take_out-TakenOut,
  set-IsRegistry, taken-IsRegistry,
}
use cudy_wr3600_openwrt.Dma.Scan.{free_slot, Scanned, scan-Scanned, free_slot}

-- The references on each device are those of the slots, and those in `lent` that callers hold.
pub record IsDma (lent : ℕ → ℕ) (d : Dma) : Type 0 where
  pub registry : IsRegistry d.slots
  pub counted : (n : ℕ) → n ≢ 0 → d.refs n ≡ lent n + sum_of (holds n) d.slots

-- What a bind reports and did.
abbrev pub Bound : ℕ → ℕ → Dma → Option Errno × Dma → Type 0
Bound old native d (some e, t) =
    (t ≡ d)
    × (((e ≡ einval) × ((old ≡ 0) ⊎ (native ≡ 0)))
        ⊎ ((e ≡ eexist) × (value_of old d.slots ≢ 0))
        ⊎ ((e ≡ enospc) × (sum_of (keyed 0) d.slots ≡ 0)))
Bound old native d (none, t) =
    (old ≢ 0)
    × (value_of old d.slots ≡ 0)
    × ((k : ℕ) → k ≢ 0 → value_of k t.slots ≡ (if old == k then native else value_of k d.slots))

Bound-at :
    (old native : ℕ) (d : Dma) (r : Result (Option ℕ))
    → old ≢ 0
    → native ≢ 0
    → IsRegistry d.slots
    → Scanned old 0 none d.slots r
    → Bound old native d (bind_at old native d r)
Bound-at old native d (err e) h hn v (is, dup) = (
  refl,
  inr (inl (is, λ z. absurd (omega (arith, dup, (value_of-keyed old d.slots h v.paired).0 z)))),
)
Bound-at old native d (ok none) h hn v (fresh, seen, full) = (refl, inr (inr (refl, full)))
Bound-at old native d (ok (some i)) h hn v s =
    let (fresh, x, at, free) = free_slot old i d.slots s in
    (
      h,
      (value_of-keyed old d.slots h v.paired).1 fresh,
      λ k hk. ground (arith, value_of-set old native k i x d.slots h hk fresh at free),
    )

-- A bind of a valid registry succeeds with a key and a device, a key that has no device yet, and a
-- free slot: then the key is looked up as that device, and every other key as before. Else the state
-- is unchanged, and the error number tells which of the three was missing.
pub bind-Bound :
    (old native : ℕ) (d : Dma) → IsRegistry d.slots → Bound old native d (bind old native d)
unfolding bind
bind-Bound old native d v = elim (Bool-cases ((old == 0) || (native == 0))) [
  | inl e ↦ rw (e, bind) (refl, inl (refl, ground (arith, e)))
  | inr e ↦
      rw (e, bind)
        (Bound-at old native d (scan old 0 none d.slots) (λ z. ground (arith, e))
          (λ z. ground (arith, e)) v (scan-Scanned old 0 none d.slots))
]

IsDma-at :
    (lent : ℕ → ℕ) (old native : ℕ) (d : Dma) (r : Result (Option ℕ))
    → old ≢ 0
    → native ≢ 0
    → IsDma lent d
    → Scanned old 0 none d.slots r
    → IsDma lent (bind_at old native d r).1
IsDma-at lent old native d (err e) h hn v s = v
IsDma-at lent old native d (ok none) h hn v s = v
IsDma-at lent old native d (ok (some i)) h hn v s =
    let (fresh, x, at, free) = free_slot old i d.slots s in
    let empty : x.value ≡ 0 = (All-get_elem? IsSlot d.slots i v.registry.paired at).0 free in
    record {
      registry =
          ground (arith, set-IsRegistry old native i x d.slots h hn v.registry fresh at free);
      counted = λ n hn'. ground (
        arith,
        v.counted n hn',
        sum_of-set (holds n) d.slots i (record { key = old; value = native }) at,
        empty,
      );
    }

pub bind-IsDma :
    {lent : ℕ → ℕ} (old native : ℕ) (d : Dma) → IsDma lent d → IsDma lent (bind old native d).1
unfolding bind
bind-IsDma {lent} old native d v = elim (Bool-cases ((old == 0) || (native == 0))) [
  | inl e ↦ rw (e, bind) v
  | inr e ↦
      rw (e, bind)
        (IsDma-at lent old native d (scan old 0 none d.slots) (λ z. ground (arith, e))
          (λ z. ground (arith, e)) v (scan-Scanned old 0 none d.slots))
]

unbound-IsDma :
    (lent : ℕ → ℕ) (old : ℕ) (d : Dma) (r : ℕ × List Slot)
    → IsDma lent d
    → TakenOut old d.slots r
    → IsDma lent (put_device r.0 (record d { slots = r.1 }))
unbound-IsDma lent old d (dev, ys) v (same, size, slots, keys, held, look) = record {
  registry = ground (
    arith,
    taken-IsRegistry size slots (λ k hk. omega (arith, keys k hk, v.registry.distinct k hk))
        v.registry,
  );
  counted = λ n hn. ground (arith, v.counted n hn, held n hn);
}

pub unbind-IsDma : {lent : ℕ → ℕ} (old : ℕ) (d : Dma) → IsDma lent d → IsDma lent (unbind old d)
unfolding unbind
unbind-IsDma {lent} old d v =
    unbound-IsDma lent old d (take_out old d.slots) v
      (take_out-TakenOut old d.slots v.registry.paired)

-- An unbind takes the device of its key away, and every other key is looked up as before.
pub value_of-unbind :
    (old k : ℕ) (d : Dma)
    → IsRegistry d.slots
    → k ≢ 0
    → value_of k (unbind old d).slots ≡ (if old == k then 0 else value_of k d.slots)
unfolding unbind
value_of-unbind old k d v h =
    let (same, size, slots, keys, held, look) = take_out-TakenOut old d.slots v.paired in
    ground (arith, look k h (v.distinct k h))
