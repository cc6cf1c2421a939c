-- ===== src/Sysport/Tag.antt =====
-- The 4-byte Broadcom tag of sysport6764.c: decoding the source port of an ingress tag, and writing
-- the egress tag into a frame.
pub mod Ports
use cudy_wr3600_openwrt.Prelude.{
  Bool, List, Option, drop, if◌then◌else◌, ltb, map, negsuc, none, not, pos, some, suc, take, zero,
  ℕ, ℤ, ◌%◌, ◌&&◌, ◌*◌, ◌++◌, ◌+◌, ◌-◌, ◌/◌, ◌==◌, ◌^◌, ◌||◌, ◌∷◌,
}
use cudy_wr3600_openwrt.Sysport.{Config, Role, lan, wan, TagFmt, b53, type2, tag_len}

-- `ffs(x) - 1` of a 16-bit word, looking at `n` bits from bit `i` on; `none` is -1.
pub lowest_bit : ℕ → ℕ → ℕ → Option ℕ
lowest_bit zero i x = none
lowest_bit (suc n) i x =
    let higher = lowest_bit n (i + 1) (x / 2) in if x % 2 == 1 then some i else higher

-- `sp_tag_src_port` on the tag's bytes; `none` is -1.
unfoldable pub tag_src_port : List ℕ → TagFmt → Option ℕ
tag_src_port (t0 ∷ t1 ∷ t2 ∷ t3 ∷ rest) type2 =
    if not (t0 == 0x88) || not (t1 == 0x8a) then none else lowest_bit 16 0 (t2 * 256 + t3)
tag_src_port (t0 ∷ t1 ∷ t2 ∷ t3 ∷ rest) b53 =
    if not (t0 / 2 ^ 5 % 8 == 0) then none else some (t3 % 32)
tag_src_port _ fmt = none

-- The comparison of an `int` port with an `unsigned int`: -1 becomes the largest word.
abbrev pub port_word : Option ℕ → ℕ
port_word none = 2 ^ 32 - 1
port_word (some p) = p

-- The netdev that a received frame goes to.
pub rx_role : Config → List ℕ → Role
unfolding tag_src_port lowest_bit
rx_role c tag =
    if c.split && port_word (tag_src_port tag c.tag_fmt) == c.wan_port && c.has_wan
    then wan
    else lan

-- `1u << port`, kept in a `u16`.
abbrev pub port_map : ℕ → ℕ
port_map port = 2 ^ port % 2 ^ 16

-- `priv->dest_map`; the LAN port is 5.
abbrev pub dest_map : Config → Role → ℕ
dest_map c lan = port_map 5
dest_map c wan = port_map c.wan_port

-- The rotation that `brcm_tag_port == 99` selects.
abbrev pub rotation : ℕ → ℕ
rotation n = if n % 3 == 0 then port_map 5 else if n % 3 == 1 then port_map 8 else port_map 0

-- The map without the split: the number of a port, 99 for the rotation, negative for no tag.
abbrev pub unsplit_map : ℤ → ℕ → Option ℕ × ℕ
unsplit_map (negsuc n) seq = (none, seq)
unsplit_map (pos port) seq =
    if port == 99 then (some (rotation seq), (seq + 1) % 2 ^ 32) else (some (port_map port), seq)

-- The destination map of an egress tag, `none` where no tag is written, and the next `tx_seq`.
unfoldable pub egress_map : Config → Role → ℕ → Option ℕ × ℕ
egress_map c role seq =
    if c.split then (some (dest_map c role), seq) else unsplit_map c.brcm_tag_port seq

-- The frame in the DMA buffer: both addresses, the tag, and the rest.
unfoldable pub tagged_frame : ℕ → List ℕ → List ℕ
tagged_frame map data_bytes =
    take 12 data_bytes ++ (0x20 ∷ 0x00 ∷ (map / 256) ∷ (map % 256) ∷ drop 12 data_bytes)

-- What `sp_rx_one` copies out of the DMA buffer for a frame of `len` bytes.
pub untagged_frame : Bool → ℕ → List ℕ → List ℕ
untagged_frame tagged len buf =
    if tagged && ltb (12 + tag_len) len
    then take 12 buf ++ take (len - 12 - tag_len) (drop (12 + tag_len) buf)
    else take len buf
