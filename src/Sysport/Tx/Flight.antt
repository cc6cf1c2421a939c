-- ===== src/Sysport/Tx/Flight.antt =====
-- One frame in flight in sysport6764.c: the buffer is not reused early, no queue stays stopped once
-- the ring is idle, and every descriptor is accounted for.
use cudy_wr3600_openwrt.Prelude.{
  ltb, not, ◌&&◌, ◌⊎◌, Bool-cases, List, inl, inr, refl, suc, zero, ◌∙◌, ◌∷◌, arith, Bool, false,
  if◌then◌else◌, length, none, true, ℕ, ◌%◌, ◌+◌, ◌^◌, ◌≡◌, ◌≢◌,
}
use cudy_wr3600_openwrt.Sysport.{Config, Role, lan, wan, max_pkt_len, enet_zlen}
use cudy_wr3600_openwrt.Sysport.Tx.{
  Tx, Netdev, tx_ok, tx_busy, mark_if, add_stats, stop_queue, dropped, finish, reclaim, spin,
  padded, desc_word1, fill, post, xmit,
}

-- Descriptors that were completed or given up, on both netdevs, and the one in flight.
abbrev pub settled : Tx → ℕ
settled s =
    s.lan_stats.tx_packets + s.wan_stats.tx_packets + s.lan_stats.tx_errors + s.wan_stats.tx_errors

abbrev pub in_flight : Tx → ℕ
in_flight s = if s.busy then 1 else 0

pub record IsTx (c : Config) (s : Tx) : Type 0 where
  pub owned : s.busy ≡ true → s.ndev ≢ none
  pub lan_awake : s.busy ≡ false → s.lan_stopped ≡ false
  pub wan_awake : s.busy ≡ false → c.has_wan ≡ true → s.wan_stopped ≡ false
  pub sound : s.fault ≡ false
  pub accounted : length s.posted % 2 ^ 32 ≡ (settled s + in_flight s) % 2 ^ 32

finish-IsTx :
    (c : Config) (stuck : Bool) (s : Tx)
    → IsTx c s
    → s.busy ≡ true
    → IsTx c (finish c stuck s)
      × ((finish c stuck s).busy ≡ false)
      × ((finish c stuck s).buf ≡ s.buf)
      × ((finish c stuck s).posted ≡ s.posted)
      × ((finish c stuck s).freed ≡ s.freed)
unfolding finish
finish-IsTx c true s v b = ground arith
finish-IsTx c false s v b = ground arith

-- What `sp_tx_reclaim` keeps, whether or not it finds the descriptor done.
record Kept (c : Config) (s t : Tx) : Type 0 where
  valid : IsTx c t
  buf : t.buf ≡ s.buf
  posted : t.posted ≡ s.posted
  freed : t.freed ≡ s.freed

reclaim-Kept : (c : Config) (s : Tx) → IsTx c s → Kept c s (reclaim c s)
unfolding reclaim
reclaim-Kept c s v =
    let t = record s { cidx_reads = s.cidx_reads + 1 } in
    let u = record t { jiffies_reads = s.jiffies_reads + 1 } in
    elim (Bool-cases s.busy) [
      | inr idle ↦ ground (arith, v)
      | inl busy ↦
          let vt : IsTx c t = ground (arith, v) in
          let vu : IsTx c u = ground (arith, v) in
          ground (arith, finish-IsTx c false t vt busy, finish-IsTx c true u vu busy, vu)
    ]

spin_step :
    (b : Bool) (c : Config) (s t : Tx)
    → Kept c s t
    → Kept c s s
    → Kept c s (elim b [ true ↦ t | false ↦ s ])
spin_step true c s t both same = both
spin_step false c s t both same = same

spin-Kept : (n : ℕ) (c : Config) (s : Tx) → IsTx c s → Kept c s (spin n c s)
unfolding spin
spin-Kept zero c s v = record { valid = v; buf = refl; posted = refl; freed = refl }
spin-Kept (suc n) c s v =
    let k = reclaim-Kept c s v in
    let r = spin-Kept n c (reclaim c s) k.valid in
    let both : Kept c s (spin n c (reclaim c s)) = record {
      valid = r.valid;
      buf = r.buf ∙ k.buf;
      posted = r.posted ∙ k.posted;
      freed = r.freed ∙ k.freed;
    } in
    let same : Kept c s s = record { valid = v; buf = refl; posted = refl; freed = refl } in
    spin_step s.busy c s (spin n c (reclaim c s)) both same

-- A netdev that exists.
abbrev pub Registered : Config → Role → Type 0
Registered c lan = Unit
Registered c wan = c.has_wan ≡ true

post-IsTx :
    (c : Config) (role : Role) (bytes : List ℕ) (s : Tx)
    → IsTx c s
    → s.busy ≡ false
    → IsTx c (post c role bytes s)
      × ((post c role bytes s).posted
          ≡ (c.dma_pa % 2 ^ 32, desc_word1 c (fill c role bytes s.tx_seq).1) ∷ s.posted)
      × ((post c role bytes s).buf ≡ (fill c role bytes s.tx_seq).0)
      × ((post c role bytes s).freed ≡ s.freed)
unfolding post
post-IsTx c lan bytes s v b = ground arith
post-IsTx c wan bytes s v b = ground arith

-- The frame in its padded form is the descriptor's one, in the buffer and in the ring.
abbrev pub Sent : Config → Role → List ℕ → Tx → Tx → Type 0
Sent c role bytes s s' =
    (s'.buf ≡ (fill c role (padded bytes) s.tx_seq).0)
    × (s'.posted
        ≡ (c.dma_pa % 2 ^ 32, desc_word1 c (fill c role (padded bytes) s.tx_seq).1) ∷ s.posted)

-- Nothing was written to the buffer or to the ring.
abbrev pub Untouched : Tx → Tx → Type 0
Untouched s s' = (s'.buf ≡ s.buf) × (s'.posted ≡ s.posted)

-- What a call reports and did.
abbrev pub XmitOutcome : Config → Role → List ℕ → Tx → Netdev × Tx → Type 0
XmitOutcome c role bytes s (tx_busy, s') =
    (s.busy ≡ true) × Untouched s s' × (s'.freed ≡ s.freed) × IsTx c s'
XmitOutcome c role bytes s (tx_ok, s') =
    (s'.freed ≡ s.freed + 1)
    × IsTx c s'
    × (Untouched s s' ⊎ ((s.busy ≡ false) × Sent c role bytes s s'))

xmit_gone :
    (c : Config) (role : Role) (bytes : List ℕ) (s : Tx)
    → IsTx c s
    → XmitOutcome c role bytes s
        (tx_ok, record (add_stats role dropped (mark_if c.tx_marks 0x70 s)) { freed = s.freed + 1 })
xmit_gone c lan bytes s v = (ground arith, ground (arith, v), inl (ground arith))
xmit_gone c wan bytes s v = (ground arith, ground (arith, v), inl (ground arith))

xmit_waits :
    (c : Config) (role : Role) (bytes : List ℕ) (s : Tx)
    → IsTx c s
    → s.busy ≡ true
    → XmitOutcome c role bytes s (tx_busy, stop_queue role (mark_if c.tx_marks 0x70 s))
xmit_waits c lan bytes s v b = ground (arith, v)
xmit_waits c wan bytes s v b = ground (arith, v)

xmit_sends :
    (c : Config) (role : Role) (bytes : List ℕ) (s : Tx)
    → IsTx c s
    → s.busy ≡ false
    → XmitOutcome c role bytes s (
      tx_ok,
      spin 100 c
          (record (mark_if c.tx_marks 0x72
            (post c role (padded bytes) (mark_if c.tx_marks 0x70 s))) { freed = s.freed + 1 }),
    )
xmit_sends c role bytes s v b =
    let t = mark_if c.tx_marks 0x70 s in
    let vt : IsTx c t = ground (arith, v) in
    let p = post c role (padded bytes) t in
    let (vp, posted, buf, freed) = post-IsTx c role (padded bytes) t vt (ground arith) in
    let q = record (mark_if c.tx_marks 0x72 p) { freed = s.freed + 1 } in
    let vq : IsTx c q = ground (arith, vp) in
    let k = spin-Kept 100 c q vq in
    (
      k.freed ∙ ground arith,
      k.valid,
      inr (b, (k.buf ∙ ground (arith, buf), k.posted ∙ ground (arith, posted))),
    )

xmit_branch :
    (b : Bool) (c : Config) (role : Role) (bytes : List ℕ) (s : Tx)
    → IsTx c s
    → s.busy ≡ b
    → XmitOutcome c role bytes s (
        if b then (tx_busy, stop_queue role (mark_if c.tx_marks 0x70 s)) else (
          tx_ok,
          spin 100 c
              (record (mark_if c.tx_marks 0x72
                (post c role (padded bytes) (mark_if c.tx_marks 0x70 s))) { freed = s.freed + 1 }),
        ))
xmit_branch true c role bytes s v b = xmit_waits c role bytes s v b
xmit_branch false c role bytes s v b = xmit_sends c role bytes s v b

-- On every path `sp_xmit` keeps the ring valid and uses the skb up exactly when it does not answer
-- NETDEV_TX_BUSY. It answers that only while a descriptor is in flight, and touches neither buffer
-- nor ring then; else the frame is dropped without touching them, or, only on an idle ring, it is
-- put in the buffer, padded and tagged, and one descriptor is written for its length.
pub xmit-XmitOutcome :
    (c : Config) (role : Role) (bytes : List ℕ) (pad_ok : Bool) (s : Tx)
    → IsTx c s
    → XmitOutcome c role bytes s (xmit c role bytes pad_ok s)
unfolding xmit
xmit-XmitOutcome c role bytes pad_ok s v =
    elim (Bool-cases (ltb (length bytes) enet_zlen && not pad_ok)) [
      | inl e ↦ rw (e, xmit) (xmit_gone c role bytes s v)
      | inr okay ↦ elim (Bool-cases (ltb max_pkt_len (length bytes))) [
        | inl e ↦ rw (okay, xmit, e) (xmit_gone c role bytes s v)
        | inr fits ↦ let m = xmit_branch s.busy c role bytes s v refl in rw (okay, xmit, fits) m
      ]
    ]
