-- ===== src/Cascade/Firmware.antt =====
-- The firmware download of cascade6764.c.
use cudy_wr3600_openwrt.Prelude.{
  eio, Bool, Errno, List, Option, Result, [], einval, err, etimedout, false, if◌then◌else◌, length,
  none, not, ok, some, ℕ, ◌%◌, ◌&&◌, ◌*◌, ◌+◌, ◌/◌, ◌==◌, ◌^◌, ◌∷◌,
}
use Prim.Native.Nat.{bit_or, bit_and}
use cudy_wr3600_openwrt.Cascade.{Bus, rd, wr, put, poll_until}

-- The registers of the on-chip RAM window.
abbrev pub lr_ctrl : ℕ
lr_ctrl = 0xa817

abbrev pub lr_addr_low : ℕ
lr_addr_low = 0xa819

abbrev pub lr_addr_high : ℕ
lr_addr_high = 0xa81a

abbrev pub lr_data_low : ℕ
lr_data_low = 0xa81b

abbrev pub lr_data_high : ℕ
lr_data_high = 0xa81c

-- `PROC_RUNNING`
abbrev pub proc_running : ℕ
proc_running = 0x2040

-- `(st & FW_CRC_MASK) == FW_CRC_GOOD`; minus an error number has both bits of the mask set.
abbrev pub crc_good : Result ℕ → Bool
crc_good (err e) = false
crc_good (ok st) = bit_and st 0xc000 == 0x4000

abbrev pub is_running : Result ℕ → Bool
is_running (err e) = false
is_running (ok proc) = proc == proc_running

-- `fw_running`
unfoldable pub fw_running : Bus → Bool × Bus
fw_running b =
    let proc = rd 0x01 0x0000 b in
    let st = rd 0x1e 0x400d proc.1 in (is_running proc.0 && crc_good st.0, st.1)

-- One 32-bit write of `low` to the internal address 0xf0003000.
abbrev pub write_internal : ℕ → Bus → Bus
write_internal low b =
    let b1 = put 0x01 lr_addr_high 0xf000 b in
    let b2 = put 0x01 lr_addr_low 0x3000 b1 in
    let b3 = put 0x01 lr_data_high 0x0000 b2 in
    let b4 = put 0x01 lr_data_low low b3 in put 0x01 lr_ctrl 0x0009 b4

-- `halt_processors`
unfoldable pub halt_processors : Bus → Bus
halt_processors b =
    let b1 = put 0x1e 0x4110 0x0001 b in
    let b2 = put 0x1e 0x418c 0x0000 b1 in
    let b3 = put 0x1e 0x4188 0x48f0 b2 in
    let b4 = write_internal 0x0121 b3 in
    let b5 = put 0x1e 0x80a6 0x0000 b4 in
    let b6 = put 0x01 0xa010 0x0000 b5 in
    let b7 = put 0x01 0x0000 0x8000 b6 in put 0x1e 0x4110 0x0001 b7

-- `release_processors`
unfoldable pub release_processors : Bus → Bus
release_processors b = write_internal 0x0020 b

-- `set_shared_ref_clk`
unfoldable pub set_shared_ref_clk : ℕ → Bus → Bus
set_shared_ref_clk ref_clk_mhz b =
    let v = rd 0x1e 0x80a8 b in
    if not (ref_clk_mhz == 80)
    then b
    else elim v.0 as (λ x. Bus) [ err e ↦ v.1 | ok w ↦ put 0x1e 0x80a8 (bit_or w 1 % 2 ^ 16) v.1 ]

-- Closing the window after the upload, with the result of it.
abbrev pub close_window : Option Errno → Bus → Option Errno × Bus
close_window o b = (o, put 0x01 lr_ctrl 0x0000 b)

-- The two writes of a word, the high half first; the second only if the first was accepted.
unfoldable pub push_word : ℕ → Bus → Option Errno × Bus
push_word word b =
    let high = wr 0x01 lr_data_high (word / 2 ^ 16 % 2 ^ 16) b in
    let low = wr 0x01 lr_data_low (word % 2 ^ 16) high.1 in
    elim high.0 as (λ x. Option Errno × Bus) [ some e ↦ (some e, high.1) | none ↦ low ]

-- `get_unaligned_le32` of four bytes.
abbrev pub le32 : ℕ → ℕ → ℕ → ℕ → ℕ
le32 a b c d = a + 2 ^ 8 * b + 2 ^ 16 * c + 2 ^ 24 * d

-- The loop of `upload_firmware` over the image, with its end.
unfoldable pub push_image : List ℕ → Bus → Option Errno × Bus
push_image (p ∷ q ∷ r ∷ s ∷ rest) b =
    let pushed = push_word (le32 p q r s) b in
    let next = push_image rest pushed.1 in
    elim pushed.0 as (λ x. Option Errno × Bus) [
      | some e ↦ close_window (some e) pushed.1
      | none ↦ next
    ]
push_image (p ∷ q ∷ r ∷ []) b = close_window none b
push_image (p ∷ q ∷ []) b = close_window none b
push_image (p ∷ []) b = close_window none b
push_image [] b = close_window none b

-- `upload_firmware` of the image's bytes.
unfoldable pub upload_firmware : List ℕ → Bus → Option Errno × Bus
upload_firmware image b =
    let b1 = put 0x01 lr_addr_low 0x0000 b in
    let b2 = put 0x01 lr_addr_high 0x0000 b1 in
    let b3 = put 0x01 lr_ctrl 0x0038 b2 in
    if not (length image % 4 == 0) then (some einval, b) else push_image image b3

-- The number of polls in each of the loops.
abbrev pub polls : ℕ
polls = 1000

-- `wait_firmware_alive`
unfoldable pub wait_firmware_alive : Bus → Option Errno × Bus
wait_firmware_alive b =
    let proc = poll_until is_running 0x01 0x0000 polls b in
    let crc = poll_until crc_good 0x1e 0x400d polls proc.1 in
    if not proc.0
    then (some etimedout, (rd 0x01 0x0000 proc.1).1)
    else if not crc.0
    then (some eio, (rd 0x1e 0x400d crc.1).1)
    else (none, crc.1)

abbrev pub start_firmware : ℕ → Option Errno × Bus → Option Errno × Bus
start_firmware ref_clk_mhz (some e, b) = (some e, b)
start_firmware ref_clk_mhz (none, b) =
    wait_firmware_alive (release_processors (set_shared_ref_clk ref_clk_mhz b))

-- `download_firmware`, where the image is what root_device_register and request_firmware give.
unfoldable pub download_firmware : ℕ → Result (List ℕ) → Bus → Option Errno × Bus
download_firmware ref_clk_mhz (err e) b = (some e, b)
download_firmware ref_clk_mhz (ok image) b =
    start_firmware ref_clk_mhz (upload_firmware image (halt_processors b))
