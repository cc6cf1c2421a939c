-- ===== src/Cascade/Module.antt =====
-- The load of cascade6764.c.
use cudy_wr3600_openwrt.Prelude.{
  Bool, Errno, List, Option, Result, err, false, if◌then◌else◌, ltb, negsuc, none, not, ok, pos,
  some, true, ℕ, ℤ, ◌%◌, ◌&&◌, ◌==◌, ◌^◌, ◌||◌,
}
use cudy_wr3600_openwrt.Cascade.{Bus, rd}
use cudy_wr3600_openwrt.Cascade.Firmware.{fw_running, download_firmware}
use cudy_wr3600_openwrt.Cascade.Commands.{post_config}

-- The parameters of the load, and the answer of request_firmware.
pub record Params : Type 0 where
  pub load_fw : Bool
  pub force_fw : Bool
  pub configure : ℤ
  pub swap_pair : Bool
  pub ref_clk_mhz : ℕ
  pub image : Result (List ℕ)

-- The module: its bus, the two results that it shows, and whether the poll work was initialised and
-- scheduled.
pub record Cascade : Type 0 where
  pub bus : Bus
  pub fw_uploaded : Bool
  pub cfg_ret : Option (Option Errno)
  pub work_ready : Bool

-- `configure >= 0 && (configure > 0 || st_fw_uploaded)`
abbrev pub wants_config : ℤ → Bool → Bool
wants_config (negsuc n) uploaded = false
wants_config (pos n) uploaded = ltb 0 n || uploaded

abbrev pub finish_load : Bool → Cascade → Cascade
finish_load running m = if running then record m { work_ready = true } else m

abbrev pub configured : Params → Bool → Cascade → Cascade
configured p running m =
    let r = post_config p.swap_pair m.bus in
    finish_load running (
      if running && wants_config p.configure m.fw_uploaded
      then record m { bus = r.1; cfg_ret = some r.0 }
      else m)

abbrev pub downloaded : Params → Bool → Option Errno × Bus → Cascade → Cascade
downloaded p running (some e, b) m = configured p running (record m { bus = b })
downloaded p running (none, b) m = configured p true (record m { bus = b; fw_uploaded = true })

abbrev pub found : Params → Bool × Bus → Cascade → Cascade
found p (running, b) m =
    if (not running && p.load_fw) || p.force_fw
    then downloaded p running (download_firmware p.ref_clk_mhz p.image b) m
    else configured p running (record m { bus = b })

abbrev pub is_absent : Result ℕ → Bool
is_absent (err e) = true
is_absent (ok id) = id % 2 ^ 16 == 0xffff

-- `cascade6764_init`, which always returns 0.
unfoldable pub cascade_init : Params → Cascade → Cascade
cascade_init p m =
    let id1 = rd 0x01 0x0002 m.bus in
    let id2 = rd 0x01 0x0003 id1.1 in
    if is_absent id1.0 then record m { bus = id2.1 } else found p (fw_running id2.1) m
