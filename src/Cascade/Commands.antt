-- ===== src/Cascade/Commands.antt =====
-- The command handler of the PHY's firmware and the configuration after it started, in cascade6764.c.
use cudy_wr3600_openwrt.Prelude.{
  eio, Bool, Errno, List, Option, Result, [], ebusy, err, false, if◌then◌else◌, none, not, ok, set,
  some, suc, true, zero, ℕ, ◌%◌, ◌&&◌, ◌+◌, ◌-◌, ◌==◌, ◌^◌, ◌∷◌,
}
use Prim.Native.Nat.{bit_or, bit_and}
use cudy_wr3600_openwrt.Cascade.{Bus, rd, put, poll_until}

abbrev pub cmd_status : ℕ
cmd_status = 0x4037

abbrev pub cmd_code : ℕ
cmd_code = 0x4005

-- A status that is neither CMD_IN_PROGRESS nor CMD_SYSTEM_BUSY.
abbrev pub is_idle : Result ℕ → Bool
is_idle (err e) = true
is_idle (ok v) = not (v == 0x0002) && not (v == 0xbbbb)

-- `CMD_COMPLETE_PASS`
abbrev pub is_pass : Result ℕ → Bool
is_pass (err e) = false
is_pass (ok v) = v == 0x0004

-- The writes of the command's words from number `i` on; `none` is a negative entry.
unfoldable pub put_data : List (Option ℕ) → ℕ → Bus → Bus
put_data [] i b = b
put_data (none ∷ rest) i b = put_data rest (suc i) b
put_data (some v ∷ rest) i b = put_data rest (suc i) (put 0x1e (0x4038 + i) (v % 2 ^ 16) b)

-- The second loop of `phy_cmd_set`: the last status that it read.
unfoldable pub last_status : ℕ → Result ℕ → Bus → Result ℕ × Bus
last_status zero v b = (v, b)
last_status (suc n) v b =
    let r = rd 0x1e cmd_status b in
    let rest = last_status n r.0 r.1 in if is_idle r.0 then r else rest

-- `phy_cmd_set`
unfoldable pub phy_cmd_set : ℕ → List (Option ℕ) → Bus → Option Errno × Bus
phy_cmd_set code words b =
    let idle = poll_until is_idle 0x1e cmd_status 1000 b in
    let sent = put 0x1e cmd_code code (put_data words 0 idle.1) in
    let status = last_status 1000 (err eio) sent in
    if not idle.0
    then (some ebusy, idle.1)
    else (if is_pass status.0 then none else some eio, status.1)

-- A read that is written back with some bits cleared and others set, when it can be read.
unfoldable pub modify : ℕ → ℕ → ℕ → ℕ → Bus → Bus
modify dev reg cleared set b =
    let v = rd dev reg b in
    elim v.0 as (λ x. Bus) [
      | err e ↦ v.1
      | ok w ↦ put dev reg (bit_or (bit_and w (2 ^ 32 - 1 - cleared)) set % 2 ^ 16) v.1
    ]

-- The last step of the advertisement: the control word, and again with autonegotiation restarted.
unfoldable pub restart : Bus → Bus
restart b =
    let v = rd 0x07 0xffe0 b in
    elim v.0 as (λ x. Bus) [
      | err e ↦ v.1
      | ok w ↦
          let word = bit_or (bit_and w (2 ^ 32 - 1 - 0x3140)) 0x1140 in
          put 0x07 0xffe0 (bit_or word 0x200 % 2 ^ 16) (put 0x07 0xffe0 (word % 2 ^ 16) v.1)
    ]

-- Autonegotiation up to 2.5G: the copper advertisement, 1000Base-T, multi-gigabit, and the restart.
unfoldable pub advertise : Bus → Bus
advertise b = restart (
    modify 0x07 0x0020 0x3180 0x2080
      (modify 0x07 0xffe9 0x700 0x700 (modify 0x07 0xffe4 0xde0 0xde0 b)))

-- After the pair swap.
abbrev pub swapped : Option Errno × Bus → Option Errno × Bus
swapped (some e, b) = (some e, b)
swapped (none, b) = (none, advertise b)

-- After the host-side framing.
abbrev pub framed : ℕ → Option Errno × Bus → Option Errno × Bus
framed swap (some e, b) = (some e, b)
framed swap (none, b) =
    swapped (phy_cmd_set 0x8001 (none ∷ some swap ∷ []) (modify 0x07 0x902f 0 0x210 b))

-- `post_config`
unfoldable pub post_config : Bool → Bus → Option Errno × Bus
post_config swap_pair b =
    let b1 = put 0x1e 0x4110 0x0001 b in
    let b2 = put 0x1e 0x4111 0x0001 b1 in
    let b3 = put 0x1e 0x4113 0x1002 b2 in
    framed (if swap_pair then 0x1b else 0xe4) (phy_cmd_set 0x8017 (some 1 ∷ some 1 ∷ []) b3)
