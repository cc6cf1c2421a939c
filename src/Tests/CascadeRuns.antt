-- ===== src/Tests/CascadeRuns.antt =====
-- A cascade PHY that answers, for cascade6764.c.
use cudy_wr3600_openwrt.Prelude.{
  eio, List, Result, [], arith, einval, enoent, err, false, if◌then◌else◌, length, ltb, none, not,
  ok, pos, refl, some, true, ℕ, ◌%◌, ◌&&◌, ◌==◌, ◌||◌, ◌∷◌, ◌≡◌, ◌≢◌,
}
use cudy_wr3600_openwrt.Cascade.{Bus, rd}
use cudy_wr3600_openwrt.Cascade.Firmware.{upload_firmware, fw_running, wait_firmware_alive}
use cudy_wr3600_openwrt.Cascade.Link.{Config, Poll}
use cudy_wr3600_openwrt.Cascade.Module.{Params, Cascade, is_absent, cascade_init}
use cudy_wr3600_openwrt.Cascade.Polls.{Awaited, wait_firmware_alive-Awaited}
use cudy_wr3600_openwrt.Cascade.Upload.{Sent, upload_firmware-Sent}
use cudy_wr3600_openwrt.Cascade.Answers.{identified, work_ready-cascade_init}

-- The firmware runs with a good checksum and a 2.5G link; the fourth read of the status fails, and
-- from the fifth on the link is down.
abbrev answers : ℕ → ℕ → ℕ → Result ℕ
answers n dev reg =
    if reg == 0
    then ok 0x2040
    else if reg == 0x400d
    then if n == 3 then err eio else if ltb n 3 then ok 0x4024 else ok 0x4000
    else ok 0x0004

abbrev bus : Bus
bus = record {
  answer = λ ws n dev reg. answers n dev reg;
  accept = λ ws. none;
  writes = [];
  reads = 0;
}

wait_firmware_alive-Awaited_example : Awaited bus (wait_firmware_alive bus)
wait_firmware_alive-Awaited_example = wait_firmware_alive-Awaited bus

abbrev image : List ℕ
image = 1 ∷ 2 ∷ 3 ∷ 4 ∷ 250 ∷ 0 ∷ 7 ∷ 8 ∷ []

upload_firmware-Sent_example :
    (length image % 4 ≢ 0 → upload_firmware image bus ≡ (some einval, bus))
    × (length image % 4 ≡ 0 → Sent bus image (upload_firmware image bus))
upload_firmware-Sent_example = upload_firmware-Sent image bus (
  omega arith,
  (
    omega arith,
    (omega arith, (omega arith, (omega arith, (omega arith, (omega arith, (omega arith, tt)))))),
  ),
)

abbrev params : Params
params = record {
  load_fw = true;
  force_fw = false;
  configure = pos 0;
  swap_pair = true;
  ref_clk_mhz = 80;
  image = err enoent;
}

abbrev loading : Cascade
loading = record { bus = bus; fw_uploaded = false; cfg_ret = none; work_ready = false }

work_ready-cascade_init_example :
    let absent = is_absent (rd 0x01 0x0002 loading.bus).0 in
    let t = cascade_init params loading in
    (t.work_ready ≡ (not absent && ((fw_running (identified loading.bus)).0 || t.fw_uploaded)))
    × (absent ≡ true → t.bus.writes ≡ loading.bus.writes)
work_ready-cascade_init_example = work_ready-cascade_init params loading refl refl

abbrev config : Config
config = record { sf2_port = some 6; serdes_core = some 1; track_speed = true; poll_ms = 2000 }

abbrev starting : Poll
starting = record { bus = bus; last = none; calls = []; scheduled = 1 }
