-- ===== src/Cascade.antt =====
-- The external cascade PHY of port66/cascade66/cascade6764.c: its MDIO bus.
pub mod Firmware
pub mod Commands
pub mod Link
pub mod Module
pub mod Polls
pub mod Window
pub mod Upload
pub mod Answers
pub mod Tracking
use cudy_wr3600_openwrt.Prelude.{
  Bool, Errno, List, Option, Result, false, if◌then◌else◌, suc, true, zero, ℕ, ◌+◌, ◌∷◌,
}

-- A write on the bus: the Clause-45 device, the register and the value.
pub record Write : Type 0 where
  pub dev : ℕ
  pub reg : ℕ
  pub val : ℕ

-- The writes so far, newest first, and the number of reads. `answer` is what sf2_mdio_c45_read returns
-- after those writes for the read of that number, and `accept` what sf2_mdio_c45_write returns, with
-- the write itself first.
pub record Bus : Type 0 where
  pub answer : List Write → ℕ → ℕ → ℕ → Result ℕ
  pub accept : List Write → Option Errno
  pub writes : List Write
  pub reads : ℕ

-- `rd`
abbrev pub rd : ℕ → ℕ → Bus → Result ℕ × Bus
rd dev reg b = (b.answer b.writes b.reads dev reg, record b { reads = b.reads + 1 })

-- `wr`
abbrev pub wr : ℕ → ℕ → ℕ → Bus → Option Errno × Bus
wr dev reg val b =
    let ws = record { dev = dev; reg = reg; val = val } ∷ b.writes in
    (b.accept ws, record b { writes = ws })

-- A write whose result is not used.
abbrev pub put : ℕ → ℕ → ℕ → Bus → Bus
put dev reg val b = (wr dev reg val b).1

-- Up to `n` reads of a register until one passes a test: the loops around udelay and rd.
unfoldable pub poll_until : (Result ℕ → Bool) → ℕ → ℕ → ℕ → Bus → Bool × Bus
poll_until test dev reg zero b = (false, b)
poll_until test dev reg (suc n) b =
    let r = rd dev reg b in
    let rest = poll_until test dev reg n r.1 in if test r.0 then (true, r.1) else rest
