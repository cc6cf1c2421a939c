-- ===== src/Sysport/Rx/Ring.antt =====
-- What one call of `sp_rx_one` (sysport6764.c) does to the receive ring and to the counters.
use cudy_wr3600_openwrt.Prelude.{
  if◌then◌else◌, true, ◌||◌, ◌∷◌, Bool-cases, inl, inr, ltb, refl, ◌<◌, ◌==◌, ◌⊎◌, List, arith, ℕ,
  ◌%◌, ◌*◌, ◌+◌, ◌/◌, ◌^◌, ◌≡◌, ◌≢◌,
}
use cudy_wr3600_openwrt.Sysport.{Config, bump, num_rx_bufs, dma_bufsize, max_pkt_len, enet_zlen}
use cudy_wr3600_openwrt.Sysport.Rx.{
  Rx, RxResult, again, done, rx_pa, desc_set, desc_len, rx_frame, rx_bad, rx_out, pending, rx_one,
}

-- Frames that were counted as received, bad or dropped, on both netdevs.
abbrev pub handled : Rx → ℕ
handled s =
    s.lan_stats.rx_packets + s.wan_stats.rx_packets + s.lan_stats.rx_errors + s.wan_stats.rx_errors
    + s.lan_stats.rx_dropped + s.wan_stats.rx_dropped

-- The slot of the ring that is next in line.
abbrev pub slot : Rx → ℕ
slot s = s.c_idx % 2 ^ 16 % num_rx_bufs

-- A frame was taken off the ring.
pub record Consumed (c : Config) (s s' : Rx) : Type 0 where
  pub advanced : pending s' + 1 ≡ pending s
  pub rearmed :
      s'.hw.desc (slot s)
      ≡ (rx_pa c (slot s) % 2 ^ 32, dma_bufsize * 2 ^ 18 + rx_pa c (slot s) / 2 ^ 32 % 256)
  pub others : (i : ℕ) → i ≢ slot s → s'.hw.desc i ≡ s.hw.desc i
  pub counted : handled s' % 2 ^ 32 ≡ (handled s + 1) % 2 ^ 32

pub rx_out_lem :
    (c : Config) (idx c_idx : ℕ) (s : Rx)
    → (rx_out c idx c_idx s).hw ≡ desc_set c idx s.hw
      × ((rx_out c idx c_idx s).c_idx ≡ (c_idx + 1) % 2 ^ 16)
      × ((rx_out c idx c_idx s).lan_stats ≡ s.lan_stats)
      × ((rx_out c idx c_idx s).wan_stats ≡ s.wan_stats)
      × ((rx_out c idx c_idx s).received ≡ s.received)
unfolding rx_out
rx_out_lem c idx c_idx s = ground arith

rx_bad_lem :
    (c : Config) (s : Rx)
    → ((rx_bad c s).hw ≡ s.hw)
      × ((rx_bad c s).received ≡ s.received)
      × (handled (rx_bad c s) % 2 ^ 32 ≡ (handled s + 1) % 2 ^ 32)
unfolding rx_bad
rx_bad_lem c s = ground arith

rx_frame_lem :
    (c : Config) (len : ℕ) (buf : List ℕ) (s : Rx)
    → ((rx_frame c len buf s).hw ≡ s.hw)
      × (handled (rx_frame c len buf s) % 2 ^ 32 ≡ (handled s + 1) % 2 ^ 32)
unfolding rx_frame
rx_frame_lem c len buf s = ground arith

-- What a call reports and did.
abbrev pub Outcome : Config → Rx → RxResult × Rx → Type 0
Outcome c s (done, s') = Consumed c s s'
Outcome c s (again, s') =
    ((pending s ≡ 0) × (s' ≡ s))
    ⊎ ((num_rx_bufs < pending s)
        × (pending s' ≡ 0)
        × (s'.hw ≡ s.hw)
        × (s'.received ≡ s.received)
        × (handled s' ≡ handled s)
        × (s'.lan_stats.rx_fifo_errors ≡ bump s.lan_stats.rx_fifo_errors 1))

Consumed-at :
    (c : Config) (s t u : Rx)
    → 0 < pending s
    → t.hw ≡ s.hw
    → handled t ≡ handled s
    → u.hw ≡ t.hw
    → handled u % 2 ^ 32 ≡ (handled t + 1) % 2 ^ 32
    → Consumed c s (rx_out c (slot s) (s.c_idx % 2 ^ 16) u)
Consumed-at c s t u h e n eu nu =
    let (hw, at, l, w, r) = rx_out_lem c (slot s) (s.c_idx % 2 ^ 16) u in
    record {
      advanced = rw (at, hw, eu, e) (omega arith);
      rearmed = rw (hw, eu, e) ground arith;
      others = λ i ne. rw (hw, eu, e) ground arith;
      counted = rw (l, w) (omega (arith, nu, n));
    }

-- The state once the first work was marked.
abbrev pub entered : Rx → Rx
entered s = if s.rx_entered then s else record s { rx_entered = true; marks = 0x6e ∷ s.marks }

entered_lem : (s : Rx) → ((entered s).hw ≡ s.hw) × (handled (entered s) ≡ handled s)
entered_lem s = ground arith

-- Every call does one of three things. The ring is empty: nothing changes. The producer is more than
-- a ring ahead: the consumer index is set to it, the loss is counted once, no
-- frame is delivered or counted. Else one
-- descriptor is consumed: the backlog shrinks by one, that descriptor is given back with its own
-- buffer and its full length, no other is touched, and the frame counts once, as received, as bad or
-- as dropped.
pub rx_one-Outcome : (c : Config) (s : Rx) → Outcome c s (rx_one c s)
unfolding rx_one
rx_one-Outcome c s = elim (Bool-cases (s.hw.p_idx % 2 ^ 16 == s.c_idx % 2 ^ 16)) [
  | inl empty ↦ rw (empty, rx_one) (inl (ground arith, refl))
  | inr some_work ↦ elim (Bool-cases (ltb num_rx_bufs (pending s))) [
    | inl ahead ↦ rw (some_work, rx_one, ahead) (inr (ground arith))
    | inr inside ↦
        rw (some_work, rx_one, inside)
          (let t = entered s in
            elim (Bool-cases (
              ltb (desc_len (s.hw.desc (slot s)).1) enet_zlen
              || ltb max_pkt_len (desc_len (s.hw.desc (slot s)).1))) [
                | inl bad ↦ rw bad (
                    let (e, r, n) = rx_bad_lem c t in
                    Consumed-at c s t (rx_bad c t) (ground arith) (entered_lem s).0
                      (entered_lem s).1 e n)
                | inr good ↦ rw good (
                    let (e, n) =
                      rx_frame_lem c (desc_len (s.hw.desc (slot s)).1) (s.hw.buf (slot s)) t in
                    Consumed-at c s t
                      (rx_frame c (desc_len (s.hw.desc (slot s)).1) (s.hw.buf (slot s)) t)
                      (ground arith) (entered_lem s).0 (entered_lem s).1 e n)
              ])
  ]
]
