-- ===== src/Cascade/Answers.antt =====
-- The command handler and the load of cascade6764.c.
use cudy_wr3600_openwrt.Prelude.{
  Bool-cases, arith, ◌&&◌, ◌||◌, eio, Bool, Errno, List, Option, Result, ebusy, false, inl, inr,
  none, not, refl, some, true, ℕ, ◌+◌, ◌<◌, ◌∷◌, ◌≡◌, ◌⊎◌,
}
use cudy_wr3600_openwrt.Cascade.{Write, Bus, rd}
use cudy_wr3600_openwrt.Cascade.Polls.{answer_at}
use cudy_wr3600_openwrt.Cascade.Firmware.{fw_running, download_firmware}
use cudy_wr3600_openwrt.Cascade.Commands.{cmd_status, cmd_code, is_idle, is_pass, put_data}
use cudy_wr3600_openwrt.Cascade.Module.{
  Params, Cascade, configured, downloaded, found, is_absent, cascade_init,
}

-- The command went out: its words and then its code, and nothing else.
abbrev pub sent : ℕ → List (Option ℕ) → Bus → List Write
sent code words b = record { dev = 0x1e; reg = cmd_code; val = code } ∷ (put_data words 0 b).writes

-- What a command reports, and what was written for it.
abbrev pub Commanded : ℕ → List (Option ℕ) → Bus → Option Errno × Bus → Type 0
Commanded code words b (o, t) =
    ((o ≡ some ebusy)
      × (t.writes ≡ b.writes)
      × ((j : ℕ) → j < 1000 → is_idle (answer_at 0x1e cmd_status j b) ≡ false))
    ⊎ ((t.writes ≡ sent code words b)
        × ((o ≡ none) ⊎ (o ≡ some eio))
        × (o ≡ none → (n : ℕ) × (is_pass (b.answer (sent code words b) n 0x1e cmd_status) ≡ true)))

-- The last status is an answer to a read after the writes, unless there was none.
abbrev Status : Bus → Result ℕ → Result ℕ × Bus → Type 0
Status b v (r, t) =
    (t.writes ≡ b.writes) × ((r ≡ v) ⊎ ((n : ℕ) × (r ≡ b.answer b.writes n 0x1e cmd_status)))

work_ready-configured :
    (p : Params) (running : Bool) (m : Cascade)
    → m.work_ready ≡ false
    → ((configured p running m).work_ready ≡ running)
      × ((configured p running m).fw_uploaded ≡ m.fw_uploaded)
work_ready-configured p running m h = ground (arith, h)

work_ready-downloaded :
    (p : Params) (running : Bool) (r : Option Errno × Bus) (m : Cascade)
    → m.work_ready ≡ false
    → m.fw_uploaded ≡ false
    → (downloaded p running r m).work_ready ≡ (running || (downloaded p running r m).fw_uploaded)
work_ready-downloaded p running (some e, b) m h u =
    ground (arith, u, work_ready-configured p running (record m { bus = b }) h)
work_ready-downloaded p running (none, b) m h u =
    ground (arith, work_ready-configured p true (record m { bus = b; fw_uploaded = true }) h)

work_ready-found :
    (p : Params) (r : Bool × Bus) (m : Cascade)
    → m.work_ready ≡ false
    → m.fw_uploaded ≡ false
    → (found p r m).work_ready ≡ (r.0 || (found p r m).fw_uploaded)
work_ready-found p (running, b) m h u =
    elim (Bool-cases ((not running && p.load_fw) || p.force_fw)) [
      | inl e ↦
          rw e (work_ready-downloaded p running (download_firmware p.ref_clk_mhz p.image b) m h u)
      | inr e ↦ rw e (ground (arith, u, work_ready-configured p running (record m { bus = b }) h))
    ]

-- The bus after the two reads of the identifier.
abbrev pub identified : Bus → Bus
identified b = record b { reads = b.reads + 1 + 1 }

-- The load always succeeds, and it initialises the work that the exit cancels exactly when there is a
-- PHY whose firmware was running or was uploaded; a PHY that is absent is not written to.
pub work_ready-cascade_init :
    (p : Params) (m : Cascade)
    → m.work_ready ≡ false
    → m.fw_uploaded ≡ false
    → let absent = is_absent (rd 0x01 0x0002 m.bus).0 in
      let t = cascade_init p m in
      (t.work_ready ≡ (not absent && ((fw_running (identified m.bus)).0 || t.fw_uploaded)))
      × (absent ≡ true → t.bus.writes ≡ m.bus.writes)
unfolding cascade_init
work_ready-cascade_init p m h u = elim (Bool-cases (is_absent (rd 0x01 0x0002 m.bus).0)) [
  | inl e ↦ rw e (h, λ z. refl)
  | inr e ↦
      rw e
        (work_ready-found p (fw_running (identified m.bus)) m h u, λ z. absurd (ground (arith, z)))
]
