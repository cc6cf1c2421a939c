-- ===== src/Sysport/Rx.antt =====
-- `sp_rx_one` of sysport6764.c: one descriptor of the receive ring. The ring's registers and memory
-- are the hardware's as well; what the hardware does between calls is `Hw` given anew.
pub mod Ring
pub mod Deliver
use cudy_wr3600_openwrt.Prelude.{
  update, Bool, List, Memory, drop, false, granted, if◌then◌else◌, ltb, negsuc, pos, request, true,
  ℕ, ◌%◌, ◌&&◌, ◌*◌, ◌+◌, ◌-◌, ◌/◌, ◌==◌, ◌^◌, ◌||◌, ◌∷◌,
}
use cudy_wr3600_openwrt.Sysport.{
  Config, Role, lan, wan, RxStats, bump, num_rx_bufs, num_tx_bufs, dma_bufsize, max_pkt_len,
  enet_zlen, tag_len,
}
use cudy_wr3600_openwrt.Sysport.Tag.{rx_role, untagged_frame}

-- The producer index register, the descriptors in on-chip RAM, and the DMA buffers.
pub record Hw : Type 0 where
  pub p_idx : ℕ
  pub desc : ℕ → ℕ × ℕ
  pub buf : ℕ → List ℕ

pub record Rx : Type 0 where
  pub hw : Hw
  pub c_idx : ℕ
  pub lan_stats : RxStats
  pub wan_stats : RxStats
  pub seen_rx : Bool
  pub rx_entered : Bool
  pub rx_done_once : Bool
  pub mem : Memory
  pub received : List (Role × List ℕ)  -- what `napi_gro_receive` got, newest first
  pub marks : List ℕ  -- what `bcm96764_mark` wrote, newest first

-- -EAGAIN, or 0 for a descriptor that is consumed.
pub data RxResult : Type 0 where
  again done : RxResult

-- `sp_rx_pa`
abbrev pub rx_pa : Config → ℕ → ℕ
rx_pa c i = c.dma_pa + dma_bufsize * (num_tx_bufs + i)

-- `sp_rx_desc_set`: the address, and the full buffer length above the address's upper bits.
abbrev pub desc_set : Config → ℕ → Hw → Hw
desc_set c i hw = record hw {
  desc = update hw.desc i (rx_pa c i % 2 ^ 32, dma_bufsize * 2 ^ 18 + rx_pa c i / 2 ^ 32 % 256);
}

abbrev pub mark_if : Bool → ℕ → Rx → Rx
mark_if on m s = if on then record s { marks = m ∷ s.marks } else s

-- The length field of a descriptor's second word.
abbrev pub desc_len : ℕ → ℕ
desc_len w1 = w1 / 2 ^ 18 % 2 ^ 14

abbrev pub add_stats : Role → (RxStats → RxStats) → Rx → Rx
add_stats lan f s = record s { lan_stats = f s.lan_stats }
add_stats wan f s = record s { wan_stats = f s.wan_stats }

-- `bool tagged`
unfoldable pub is_tagged : Config → Bool
is_tagged c = c.split || elim c.brcm_tag_port [ pos n ↦ true | negsuc n ↦ false ]

-- The body between the length test and `out:`; the skb allocation may be refused.
pub rx_frame : Config → ℕ → List ℕ → Rx → Rx
rx_frame c len buf s =
    let tagged = is_tagged c && ltb (12 + tag_len) len in
    let role = if tagged then rx_role c (drop 12 buf) else lan in
    let t = record s { mem = record s.mem { asked = s.mem.asked + 1 } } in
    let counted =
      add_stats role
        (λ st. record st { rx_packets = bump st.rx_packets 1; rx_bytes = bump st.rx_bytes len })
        t in
    let first =
      if s.seen_rx then counted else record counted { seen_rx = true; marks = 0x6a ∷ s.marks } in
    if granted s.mem
    then mark_if c.rx_marks 0x7a
        (record first { received = (role, untagged_frame (is_tagged c) len buf) ∷ s.received })
    else add_stats role (λ st. record st { rx_dropped = bump st.rx_dropped 1 }) t

-- A descriptor whose length is out of range.
pub rx_bad : Config → Rx → Rx
rx_bad c s =
    add_stats lan
      (λ st. record st {
        rx_errors = bump st.rx_errors 1;
        rx_length_errors = bump st.rx_length_errors 1;
      })
      (mark_if c.rx_marks 0x7b s)

-- `out:` re-arms the descriptor and advances the consumer index.
pub rx_out : Config → ℕ → ℕ → Rx → Rx
rx_out c idx c_idx s =
    let t = record s { hw = desc_set c idx s.hw; c_idx = (c_idx + 1) % 2 ^ 16 } in
    if t.rx_done_once
    then t
    else if t.seen_rx
    then record t { rx_done_once = true }
    else record t { rx_done_once = true; marks = 0x6f ∷ t.marks }

-- How far the producer is ahead, in 16 bits.
abbrev pub pending : Rx → ℕ
pending s = (s.hw.p_idx % 2 ^ 16 + 2 ^ 16 - s.c_idx % 2 ^ 16) % 2 ^ 16

pub rx_one : Config → Rx → RxResult × Rx
unfolding rx_frame rx_bad rx_out
rx_one c s =
    let p_idx = s.hw.p_idx % 2 ^ 16 in
    let c_idx = s.c_idx % 2 ^ 16 in
    let idx = c_idx % num_rx_bufs in
    let len = desc_len (s.hw.desc idx).1 in
    let t = if s.rx_entered then s else record s { rx_entered = true; marks = 0x6e ∷ s.marks } in
    let resync =
      record (add_stats lan (λ st. record st { rx_fifo_errors = bump st.rx_fifo_errors 1 })
        (mark_if c.rx_marks 0x7c t)) { c_idx = p_idx } in
    let consumed = rx_out c idx c_idx (
      if ltb len enet_zlen || ltb max_pkt_len len
      then rx_bad c t
      else rx_frame c len (s.hw.buf idx) t) in
    if p_idx == c_idx
    then (again, s)
    else if ltb num_rx_bufs (pending s)
    then (again, resync)
    else (done, consumed)
