-- ===== src/Sysport/Tag/Ports.antt =====
-- The Broadcom tag of sysport6764.c: what the decoders answer, and that the receive path takes out
-- exactly what the transmit path puts in.
use cudy_wr3600_openwrt.Prelude.{
  Bool, if◌then◌else◌, ◌&&◌, false, ◌↔◌, Bool-cases, ap, inl, inr, sym, ◌==◌, ◌≢◌, Option, none,
  some, suc, zero, ◌*◌, ◌^◌, ◌≤◌, List, [], append_assoc, arith, drop, drop_front, length,
  length-append, length-drop, length-take, ltb, map, refl, take, take-append-drop, take_front, true,
  ℕ, ◌%◌, ◌++◌, ◌+◌, ◌-◌, ◌/◌, ◌<◌, ◌∙◌, ◌∷◌, ◌≡◌,
}
use native.Mathlib.Nat.{pow-suc, div-div-eq-div-mul}
use cudy_wr3600_openwrt.Prelude.Bits.{mod_digit}
use cudy_wr3600_openwrt.Sysport.{Config, lan, wan, TagFmt, b53, type2, tag_len}
use cudy_wr3600_openwrt.Sysport.Tag.{
  lowest_bit, tag_src_port, port_word, rx_role, tagged_frame, untagged_frame,
}

-- A frame of both addresses, a tag and a payload loses exactly the tag, whatever follows in the
-- buffer.
pub untagged_frame_lem :
    (header tag payload slack : List ℕ)
    → length header ≡ 12
    → length tag ≡ tag_len
    → 0 < length payload
    → untagged_frame true (16 + length payload) (header ++ (tag ++ (payload ++ slack)))
      ≡ header ++ payload
unfolding untagged_frame
untagged_frame_lem header tag payload slack h t p =
    let long : ltb 16 (16 + length payload) ≡ true = ground arith in
    let both : length (header ++ tag) ≡ 16 = omega (arith, length-append header tag) in
    let left : 16 + length payload - 12 - 4 ≡ length payload = omega arith in
    let front = take_front 12 header (tag ++ (payload ++ slack)) h in
    let rest : drop 16 (header ++ (tag ++ (payload ++ slack))) ≡ payload ++ slack =
      rw (← append_assoc header tag (payload ++ slack))
        (drop_front 16 (header ++ tag) (payload ++ slack) both) in
    rw (long, front, left, rest, take_front (length payload) payload slack refl)

-- Sending and receiving are inverse on the frame: a frame that is tagged for any ports and lands in
-- a buffer is delivered as it was.
pub untagged-tagged :
    (map : ℕ) (frame slack : List ℕ)
    → 12 < length frame
    → untagged_frame true (tag_len + length frame) (tagged_frame map frame ++ slack) ≡ frame
unfolding tagged_frame
untagged-tagged map frame slack h =
    let header = take 12 frame in
    let payload = drop 12 frame in
    let tag = 0x20 ∷ 0x00 ∷ (map / 256) ∷ (map % 256) ∷ [] in
    let size : tag_len + length frame ≡ 16 + length payload = omega (arith, length-drop 12 frame) in
    let shape : tagged_frame map frame ++ slack ≡ header ++ (tag ++ (payload ++ slack)) =
      append_assoc header (tag ++ payload) slack in
    rw (size, shape)
      (untagged_frame_lem header tag payload slack (length-take 12 frame (omega arith)) refl
          (omega (arith, length-drop 12 frame))
        ∙ take-append-drop 12 frame)

-- Bit `p` is the lowest one that is set.
abbrev pub LowestBit : ℕ → ℕ → Type 0
LowestBit x p = (x % 2 ^ p ≡ 0) × (x / 2 ^ p % 2 ≡ 1)

abbrev pub Scanned : ℕ → ℕ → ℕ → Option ℕ → Type 0
Scanned n i x none = x % 2 ^ n ≡ 0
Scanned n i x (some p) = (i ≤ p) × (p < i + n) × LowestBit x (p - i)

div_pow_suc : (n x : ℕ) → x / 2 ^ suc n ≡ x / 2 / 2 ^ n
div_pow_suc n x =
    ap (λ (t : ℕ). x / t) (pow-suc 2 n ∙ omega arith) ∙ sym (div-div-eq-div-mul x 2 (2 ^ n))

Scanned-above :
    (n i x : ℕ) (o : Option ℕ) → x % 2 ≢ 1 → Scanned n (i + 1) (x / 2) o → Scanned (suc n) i x o
Scanned-above n i x none even s = omega (arith, mod_digit n x)
Scanned-above n i x (some p) even (above, below, (clear, bit)) =
    let d : p - i ≡ suc (p - (i + 1)) = omega arith in
    (
      omega arith,
      omega arith,
      (
        rw d (omega (arith, mod_digit (p - (i + 1)) x)),
        rw d (ap (λ (t : ℕ). t % 2) (div_pow_suc (p - (i + 1)) x) ∙ bit),
      ),
    )

lowest_bit_lem : (n i x : ℕ) → Scanned n i x (lowest_bit n i x)
unfolding lowest_bit
lowest_bit_lem zero i x = ground arith
lowest_bit_lem (suc n) i x =
    let rest = lowest_bit_lem n (i + 1) (x / 2) in
    elim (Bool-cases (x % 2 == 1)) [
      | inl odd ↦ rw (odd, lowest_bit) (ground arith)
      | inr even ↦
          rw (even, lowest_bit)
            (Scanned-above n i x (lowest_bit n (i + 1) (x / 2)) (ground arith) rest)
    ]

-- Only one bit is the lowest that is set.
lowest_unique : (x p q : ℕ) → LowestBit x p → LowestBit x q → p ≡ q
lowest_unique x zero zero hp hq = refl
lowest_unique x zero (suc q) hp hq = absurd (omega (arith, mod_digit q x, hp.1, hq.0))
lowest_unique x (suc p) zero hp hq = absurd (omega (arith, mod_digit p x, hq.1, hp.0))
lowest_unique x (suc p) (suc q) hp hq =
    let half : (n : ℕ) → LowestBit x (suc n) → LowestBit (x / 2) n = λ n h.
      (omega (arith, mod_digit n x, h.0), ap (λ (t : ℕ). t % 2) (sym (div_pow_suc n x)) ∙ h.1) in
    ap suc (lowest_unique (x / 2) p q (half p hp) (half q hq))

-- The tag of a frame that came in by switch port `p`.
abbrev pub FromPort : List ℕ → TagFmt → ℕ → Type 0
FromPort (t0 ∷ t1 ∷ t2 ∷ t3 ∷ rest) type2 p =
    (t0 ≡ 0x88) × (t1 ≡ 0x8a) × LowestBit (t2 * 256 + t3) p
FromPort (t0 ∷ t1 ∷ t2 ∷ t3 ∷ rest) b53 p = (t0 / 2 ^ 5 % 8 ≡ 0) × (t3 % 32 ≡ p)
FromPort _ fmt p = false ≡ true

-- No bit below `n` is set where the remainder is 0.
below_clear : (n x p : ℕ) → p < n → x % 2 ^ n ≡ 0 → LowestBit x p → false ≡ true
below_clear zero x p h clear l = absurd (omega arith)
below_clear (suc n) x zero h clear l = absurd (omega (arith, mod_digit n x, l.1))
below_clear (suc n) x (suc p) h clear l =
    below_clear n (x / 2) p (omega arith) (omega (arith, mod_digit n x))
      (omega (arith, mod_digit p x, l.0), ap (λ (t : ℕ). t % 2) (sym (div_pow_suc p x)) ∙ l.1)

Scanned-port :
    (x p : ℕ) (o : Option ℕ) → p < 16 → Scanned 16 0 x o → (port_word o ≡ p) ↔ LowestBit x p
Scanned-port x p none h clear =
    (λ e. absurd (omega arith), λ l. absurd (ground (arith, below_clear 16 x p h clear l)))
Scanned-port x p (some q) h (above, below, lowest) =
    let same : q - 0 ≡ q = omega arith in
    let here : LowestBit x q = coe 0 1 (i. LowestBit x (same i)) lowest in
    (λ (e : q ≡ p). coe 0 1 (i. LowestBit x (e i)) here, λ l. lowest_unique x q p here l)

port_word_lem :
    (tag : List ℕ) (fmt : TagFmt) (p : ℕ)
    → p < 16
    → (port_word (tag_src_port tag fmt) ≡ p) ↔ FromPort tag fmt p
unfolding tag_src_port
port_word_lem (t0 ∷ t1 ∷ t2 ∷ t3 ∷ rest) type2 p h = ground (
  arith,
  Scanned-port (t2 * 256 + t3) p (lowest_bit 16 0 (t2 * 256 + t3)) h
      (lowest_bit_lem 16 0 (t2 * 256 + t3)),
)
port_word_lem (t0 ∷ t1 ∷ t2 ∷ t3 ∷ rest) b53 p h = ground arith
port_word_lem [] fmt p h = ground arith
port_word_lem (_ ∷ []) fmt p h = ground arith
port_word_lem (_ ∷ _ ∷ []) fmt p h = ground arith
port_word_lem (_ ∷ _ ∷ _ ∷ []) fmt p h = ground arith

role_lem :
    (split has : Bool) (w p : ℕ)
    → split ≡ true
    → has ≡ true
    → ((if split && w == p && has then wan else lan) ≡ wan) ↔ (w ≡ p)
role_lem split has w p on there = ground arith

-- In split mode a received frame goes to the WAN netdev exactly when its tag says that it came in
-- by the WAN port, for every WAN port the switch has and either tag format.
pub rx_role-FromPort :
    (c : Config) (tag : List ℕ)
    → c.split ≡ true
    → c.has_wan ≡ true
    → c.wan_port < 16
    → (rx_role c tag ≡ wan) ↔ FromPort tag c.tag_fmt c.wan_port
unfolding rx_role
rx_role-FromPort c tag on has h =
    let (out, back) =
      role_lem c.split c.has_wan (port_word (tag_src_port tag c.tag_fmt)) c.wan_port on has in
    let (to, from) = port_word_lem tag c.tag_fmt c.wan_port h in
    (λ e. to (out e), λ e. back (from e))
