-- ===== src/Sysport/Rx/Deliver.antt =====
-- What `sp_rx_one` of sysport6764.c hands to the network stack.
use cudy_wr3600_openwrt.Prelude.{
  drop_front, arith, false, if◌then◌else◌, ltb, ◌%◌, ◌==◌, ◌^◌, ◌||◌, ◌∙◌, List, drop, granted,
  length, true, ℕ, ◌++◌, ◌+◌, ◌<◌, ◌∷◌, ◌≡◌, ◌≤◌,
}
use cudy_wr3600_openwrt.Sysport.{
  bump, Config, Role, lan, wan, num_rx_bufs, max_pkt_len, enet_zlen, tag_len,
}
use cudy_wr3600_openwrt.Sysport.Tag.{rx_role, untagged_frame}
use cudy_wr3600_openwrt.Sysport.Tag.Ports.{untagged_frame_lem}
use cudy_wr3600_openwrt.Sysport.Rx.{
  add_stats, mark_if, Rx, desc_len, is_tagged, rx_frame, pending, rx_one,
}
use cudy_wr3600_openwrt.Sysport.Rx.Ring.{entered, slot, rx_out_lem}

delivered_at :
    (c : Config) (role : Role) (len : ℕ) (frame : List ℕ) (s : Rx)
    → granted s.mem ≡ true
    → (let t = record s { mem = record s.mem { asked = s.mem.asked + 1 } } in
        let counted =
          add_stats role
            (λ st. record st { rx_packets = bump st.rx_packets 1; rx_bytes = bump st.rx_bytes len })
            t in
        let first =
          if s.seen_rx
          then counted
          else record counted { seen_rx = true; marks = 0x6a ∷ s.marks } in
        if granted s.mem
        then mark_if c.rx_marks 0x7a (record first { received = (role, frame) ∷ s.received })
        else add_stats role (λ st. record st { rx_dropped = bump st.rx_dropped 1 }) t).received
      ≡ (role, frame) ∷ s.received
delivered_at c lan len frame s room = ground arith
delivered_at c wan len frame s room = ground arith

rx_frame-received :
    (c : Config) (len : ℕ) (buf : List ℕ) (s : Rx)
    → is_tagged c ≡ true
    → 16 < len
    → granted s.mem ≡ true
    → (rx_frame c len buf s).received
      ≡ (rx_role c (drop 12 buf), untagged_frame true len buf) ∷ s.received
unfolding rx_frame
rx_frame-received c len buf s tagged long room =
    let far : ltb 16 len ≡ true = ground arith in
    rw (tagged, far)
      (delivered_at c (rx_role c (drop 12 buf)) len (untagged_frame true len buf) s room)

-- Where the driver takes tagged frames, the ring is not overrun and the skb allocation is granted, a
-- frame of both addresses, a tag and a payload that waits at the head of the ring, of a length in
-- range, is delivered as the addresses and the payload alone, to the netdev that its tag selects.
pub rx_one-received :
    (c : Config) (s : Rx) (header tag payload slack : List ℕ)
    → is_tagged c ≡ true
    → 0 < pending s
    → pending s ≤ num_rx_bufs
    → granted s.mem ≡ true
    → s.hw.buf (slot s) ≡ header ++ (tag ++ (payload ++ slack))
    → length header ≡ 12
    → length tag ≡ tag_len
    → desc_len (s.hw.desc (slot s)).1 ≡ 16 + length payload
    → enet_zlen ≤ 16 + length payload
    → 16 + length payload ≤ max_pkt_len
    → (rx_one c s).1.received
      ≡ (rx_role c (tag ++ (payload ++ slack)), header ++ payload) ∷ s.received
unfolding rx_one
rx_one-received c s header tag payload slack tagged some_work inside room at_slot h size len low
      high =
    let work : s.hw.p_idx % 2 ^ 16 == s.c_idx % 2 ^ 16 ≡ false = ground arith in
    let near : ltb num_rx_bufs (pending s) ≡ false = ground arith in
    let good : (ltb (desc_len (s.hw.desc (slot s)).1) enet_zlen
          || ltb max_pkt_len (desc_len (s.hw.desc (slot s)).1))
        ≡ false =
      ground (arith, len) in
    let t = entered s in
    let (hw, at, l, w, r) =
      rx_out_lem c (slot s) (s.c_idx % 2 ^ 16)
        (rx_frame c (desc_len (s.hw.desc (slot s)).1) (s.hw.buf (slot s)) t) in
    let wide : 16 < desc_len (s.hw.desc (slot s)).1 = omega (arith, len) in
    let room' : granted t.mem ≡ true = ground (arith, room) in
    let f =
      rx_frame-received c (desc_len (s.hw.desc (slot s)).1) (s.hw.buf (slot s)) t tagged wide
        room' in
    let before : t.received ≡ s.received = ground arith in
    let behind : drop 12 (s.hw.buf (slot s)) ≡ tag ++ (payload ++ slack) =
      rw at_slot (drop_front 12 header (tag ++ (payload ++ slack)) h) in
    let whole : untagged_frame true (desc_len (s.hw.desc (slot s)).1) (s.hw.buf (slot s))
        ≡ header ++ payload =
      rw (len, at_slot) (untagged_frame_lem header tag payload slack h size (omega arith)) in
    rw (work, rx_one, near, good) (r ∙ f ∙ cc)
