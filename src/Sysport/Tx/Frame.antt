-- ===== src/Sysport/Tx/Frame.antt =====
-- The frame that `sp_xmit` of sysport6764.c leaves in the DMA buffer, and its descriptor.
use cudy_wr3600_openwrt.Prelude.{
  Option, none, some, List, ap, arith, drop, length, length-append, length-drop, length-take, map,
  refl, suc, take, true, zero, ℕ, ◌%◌, ◌++◌, ◌+◌, ◌-◌, ◌/◌, ◌<◌, ◌^◌, ◌∙◌, ◌∷◌, ◌≡◌, ◌≤◌,
}
use cudy_wr3600_openwrt.Sysport.{Config, Role, max_pkt_len, enet_zlen, tag_len, dma_bufsize}
use cudy_wr3600_openwrt.Sysport.Tag.{egress_map, tagged_frame, untagged_frame, dest_map}
use cudy_wr3600_openwrt.Sysport.Tag.Ports.{untagged-tagged}
use cudy_wr3600_openwrt.Sysport.Rx.{desc_len}
use cudy_wr3600_openwrt.Sysport.Tx.{zeros, padded, desc_word1, fill}

length-zeros : (n : ℕ) → length (zeros n) ≡ n
length-zeros zero = refl
length-zeros (suc n) = ap suc (length-zeros n)

length-padded : (bytes : List ℕ) → length (padded bytes) ≡ length bytes + (enet_zlen - length bytes)
length-padded bytes =
    length-append bytes (zeros (enet_zlen - length bytes))
    ∙ ap (λ (n : ℕ). length bytes + n) (length-zeros (enet_zlen - length bytes))

length-tagged :
    (map : ℕ) (frame : List ℕ)
    → 12 ≤ length frame
    → length (tagged_frame map frame) ≡ length frame + tag_len
unfolding tagged_frame
length-tagged map frame h = omega (
  arith,
  length-append (take 12 frame) (0x20 ∷ 0x00 ∷ (map / 256) ∷ (map % 256) ∷ drop 12 frame),
  length-take 12 frame h,
  length-drop 12 frame,
)

desc_len-word1 : (c : Config) (n : ℕ) → n < 2 ^ 14 → desc_len (desc_word1 c n) ≡ n
desc_len-word1 c n h = omega arith

-- The descriptor's length is the buffer's, is in the range the hardware takes and the DMA buffer
-- holds, and is what the length field of the descriptor's word reads as.
abbrev pub IsOnWire : Config → List ℕ × ℕ × ℕ → Type 0
IsOnWire c (buf, len, seq) =
    (length buf ≡ len)
    × (enet_zlen ≤ len)
    × (len ≤ max_pkt_len + tag_len)
    × (len ≤ dma_bufsize)
    × (desc_len (desc_word1 c len) ≡ len)

wire_of :
    (c : Config) (o : Option ℕ) (bytes : List ℕ) (seq : ℕ)
    → length bytes ≤ max_pkt_len
    → IsOnWire c (elim o as (λ x. List ℕ × ℕ × ℕ) [
      | none ↦ (padded bytes, length (padded bytes), seq)
      | some m ↦ (tagged_frame m (padded bytes), length (padded bytes) + tag_len, seq)
    ])
wire_of c none bytes seq h =
    let n = length-padded bytes in
    (
      refl,
      omega (arith, n),
      omega (arith, n),
      omega (arith, n),
      desc_len-word1 c (length (padded bytes)) (omega (arith, n)),
    )
wire_of c (some m) bytes seq h =
    let n = length-padded bytes in
    (
      length-tagged m (padded bytes) (omega (arith, n)),
      omega (arith, n),
      omega (arith, n),
      omega (arith, n),
      desc_len-word1 c (length (padded bytes) + tag_len) (omega (arith, n)),
    )

-- The frame that the driver hands to the hardware is on the wire whole: the descriptor's length is
-- that of the buffer's contents, at least the Ethernet minimum, within the largest frame plus a tag,
-- so within the DMA buffer, and is what its 14-bit length field reads as.
pub fill-IsOnWire :
    (c : Config) (role : Role) (bytes : List ℕ) (seq : ℕ)
    → length bytes ≤ max_pkt_len
    → IsOnWire c (fill c role (padded bytes) seq)
unfolding fill
fill-IsOnWire c role bytes seq h =
    wire_of c (egress_map c role seq).0 bytes (egress_map c role seq).1 h

untagged-wire :
    (map : ℕ) (frame slack : List ℕ)
    → 12 < length frame
    → untagged_frame true (length frame + tag_len) (tagged_frame map frame ++ slack) ≡ frame
untagged-wire map frame slack h =
    let swap : length frame + tag_len ≡ tag_len + length frame = omega arith in
    rw swap (untagged-tagged map frame slack h)

-- In split mode the receive path gives back the frame that was sent, padded, from the length and the
-- buffer of its descriptor, whatever the buffer holds behind it.
pub untagged-fill :
    (c : Config) (role : Role) (bytes slack : List ℕ) (seq : ℕ)
    → c.split ≡ true
    → length bytes ≤ max_pkt_len
    → untagged_frame true
        (fill c role (padded bytes) seq).1
        ((fill c role (padded bytes) seq).0 ++ slack)
      ≡ padded bytes
unfolding fill egress_map
untagged-fill c role bytes slack seq on h =
    rw on
      (untagged-wire (dest_map c role) (padded bytes) slack (omega (arith, length-padded bytes)))
