-- ===== src/Sysport/Tx.antt =====
-- Transmission in sysport6764.c: one descriptor in flight over one DMA buffer, shared by both
-- netdevs. The consumer index and `jiffies` are read from the hardware's traces.
pub mod Flight
pub mod Frame
use cudy_wr3600_openwrt.Prelude.{
  Bool, List, Option, [], false, if◌then◌else◌, leb, length, ltb, map, none, not, some, suc, true,
  zero, ℕ, ◌%◌, ◌&&◌, ◌*◌, ◌++◌, ◌+◌, ◌-◌, ◌/◌, ◌==◌, ◌^◌, ◌∷◌,
}
use cudy_wr3600_openwrt.Sysport.{
  Config, Role, lan, wan, TxStats, word, bump, dma_bufsize, max_pkt_len, enet_zlen, tag_len,
}
use cudy_wr3600_openwrt.Sysport.Tag.{egress_map, tagged_frame}

pub record Tx : Type 0 where
  pub busy : Bool
  pub cidx_pre : ℕ
  pub len : ℕ
  pub start : ℕ
  pub ndev : Option Role
  pub tx_seq : ℕ
  pub buf : List ℕ
  pub posted : List (ℕ × ℕ)  -- words 0 and 1 of the descriptors written, newest first
  pub lan_stopped : Bool
  pub wan_stopped : Bool
  pub lan_stats : TxStats
  pub wan_stats : TxStats
  pub seen_tx : Bool
  pub marks : List ℕ
  pub fault : Bool  -- the NULL `tx_ndev` was dereferenced
  pub freed : ℕ  -- skbs given to `dev_kfree_skb_any` or freed by `skb_padto`
  pub cidx_at : ℕ → ℕ  -- what the n-th read of the consumer index gives
  pub cidx_reads : ℕ
  pub jiffies_at : ℕ → ℕ
  pub jiffies_reads : ℕ

pub data Netdev : Type 0 where
  tx_ok tx_busy : Netdev

abbrev pub mark_if : Bool → ℕ → Tx → Tx
mark_if on m s = if on then record s { marks = m ∷ s.marks } else s

abbrev pub add_stats : Role → (TxStats → TxStats) → Tx → Tx
add_stats lan f s = record s { lan_stats = f s.lan_stats }
add_stats wan f s = record s { wan_stats = f s.wan_stats }

abbrev pub add_ndev : Option Role → (TxStats → TxStats) → Tx → Tx
add_ndev none f s = record s { fault = true }
add_ndev (some r) f s = add_stats r f s

-- `netif_stop_queue`
abbrev pub stop_queue : Role → Tx → Tx
stop_queue lan s = record s { lan_stopped = true }
stop_queue wan s = record s { wan_stopped = true }

-- The loop that wakes every registered netdev's queue.
abbrev pub wake_all : Config → Tx → Tx
wake_all c s = record s {
  lan_stopped = false;
  wan_stopped = if c.has_wan then false else s.wan_stopped;
}

-- `time_after(a, b)` on 32 bits.
abbrev pub time_after : ℕ → ℕ → Bool
time_after a b = leb (2 ^ 31) ((b % word + word - a % word) % word)

abbrev pub dropped : TxStats → TxStats
dropped st = record st { tx_dropped = bump st.tx_dropped 1 }

-- The end of `sp_tx_reclaim` for a descriptor that is given up or consumed.
pub finish : Config → Bool → Tx → Tx
finish c true s =
    let t = mark_if c.tx_marks 0x74 (record s { busy = false }) in
    let u = add_ndev s.ndev (λ st. record st { tx_errors = bump st.tx_errors 1 }) t in
    wake_all c (record u { marks = 0xef ∷ u.marks })
finish c false s =
    let t = mark_if c.tx_marks 0x73 (record s { busy = false }) in
    let u =
      add_ndev s.ndev
        (λ st. record st { tx_packets = bump st.tx_packets 1; tx_bytes = bump st.tx_bytes s.len })
        t in
    wake_all c (if s.seen_tx then u else record u { seen_tx = true; marks = 0x69 ∷ u.marks })

-- `sp_tx_reclaim`
pub reclaim : Config → Tx → Tx
reclaim c s =
    let t = record s { cidx_reads = s.cidx_reads + 1 } in
    let u = record t { jiffies_reads = s.jiffies_reads + 1 } in
    let late = time_after (s.jiffies_at s.jiffies_reads) (s.start + c.tx_timeout) in
    if not s.busy
    then s
    else if not (s.cidx_at s.cidx_reads % 2 ^ 16 == s.cidx_pre)
    then finish c false t
    else if late
    then finish c true u
    else u

-- The bounded wait at the end of `sp_xmit`.
pub spin : ℕ → Config → Tx → Tx
spin zero c s = s
spin (suc n) c s = elim s.busy [ true ↦ spin n c (reclaim c s) | false ↦ s ]

-- The bytes that `skb_padto` leaves: the data, zeros up to the minimum.
abbrev pub zeros : ℕ → List ℕ
zeros zero = []
zeros (suc n) = 0 ∷ zeros n

abbrev pub padded : List ℕ → List ℕ
padded bytes = bytes ++ zeros (enet_zlen - length bytes)

-- `SP_TXDESC_W1(len)` with the address's upper bits: fields side by side, so `|` is a sum.
abbrev pub desc_word1 : Config → ℕ → ℕ
desc_word1 c len = len * 2 ^ 18 + 3 * 2 ^ 16 + 2 ^ 11 + c.dma_pa / 2 ^ 32 % 256

-- The DMA buffer for a frame, the length handed to the hardware, and the next `tx_seq`.
pub fill : Config → Role → List ℕ → ℕ → List ℕ × ℕ × ℕ
fill c role bytes seq =
    let (map, seq') = egress_map c role seq in
    elim map [
      | none ↦ (bytes, length bytes, seq')
      | some m ↦ (tagged_frame m bytes, length bytes + tag_len, seq')
    ]

-- The critical section of `sp_xmit` for an idle ring, up to `netif_stop_queue`.
pub post : Config → Role → List ℕ → Tx → Tx
post c role bytes s =
    let (buf, len, seq) = fill c role bytes s.tx_seq in
    stop_queue role (
      mark_if c.tx_marks 0x71 (record s {
        buf = buf;
        tx_seq = seq;
        cidx_pre = s.cidx_at s.cidx_reads % 2 ^ 16;
        cidx_reads = s.cidx_reads + 1;
        len = len;
        start = s.jiffies_at s.jiffies_reads % word;
        jiffies_reads = s.jiffies_reads + 1;
        ndev = some role;
        busy = true;
        posted = (c.dma_pa % 2 ^ 32, desc_word1 c len) ∷ s.posted;
      }))

-- `sp_xmit`; `pad_ok` is whether `skb_padto` finds room where it needs any.
pub xmit : Config → Role → List ℕ → Bool → Tx → Netdev × Tx
xmit c role bytes pad_ok s =
    let t = mark_if c.tx_marks 0x70 s in
    let short = ltb (length bytes) enet_zlen in
    let gone = record (add_stats role dropped t) { freed = s.freed + 1 } in
    let sent = mark_if c.tx_marks 0x72 (post c role (padded bytes) t) in
    if short && not pad_ok
    then (tx_ok, gone)
    else if ltb max_pkt_len (length bytes)
    then (tx_ok, gone)
    else if s.busy
    then (tx_busy, stop_queue role t)
    else (tx_ok, spin 100 c (record sent { freed = s.freed + 1 }))
