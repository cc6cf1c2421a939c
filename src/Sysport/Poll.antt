-- ===== src/Sysport/Poll.antt =====
-- NAPI and the poll timer of sysport6764.c. What the hardware does to the ring before each look at
-- it is `env`, indexed by the budget that is left.
pub mod Work
use cudy_wr3600_openwrt.Prelude.{
  Bool, List, Option, if◌then◌else◌, leb, ltb, none, not, some, suc, true, zero, ℕ, ◌&&◌, ◌*◌, ◌+◌,
  ◌||◌, ◌∷◌,
}
use cudy_wr3600_openwrt.Sysport.{Config}
use cudy_wr3600_openwrt.Sysport.Rx.{Hw, Rx, RxResult, again, done, rx_one}
use cudy_wr3600_openwrt.Sysport.Tx.{Tx, reclaim}

-- The fields of `struct sysport6764` that polling uses, with both rings.
pub record Poll : Type 0 where
  pub rx : Rx
  pub tx : Tx
  pub budget_hit : Bool
  pub busy : Bool
  pub completed : Bool  -- `napi_complete_done` was called
  pub running : Bool
  pub marks : List ℕ
  pub scheduled : ℕ  -- calls of `napi_schedule`

-- `while (work < budget)`, with the budget that is left: the frames taken off the ring.
pub rx_loop : ℕ → (ℕ → Hw → Hw) → Rx → Config → ℕ × Rx
rx_loop zero env s c = (0, s)
rx_loop (suc left) env s c =
    let (r, t) = rx_one c (record s { hw = env left s.hw }) in
    let (work, u) = rx_loop left env t c in elim r [ again ↦ (0, t) | done ↦ (suc work, u) ]

abbrev pub mark_if : Bool → ℕ → Poll → Poll
mark_if on m s = if on then record s { marks = m ∷ s.marks } else s

-- The end of `sp_napi_poll`, from the loop's result on.
pub poll_end : Config → ℕ → ℕ × Rx → Poll → ℕ × Poll
poll_end c budget (work, rx) s =
    let polled = record s { rx = rx } in
    let hit =
      if leb budget work && not s.budget_hit
      then mark_if (not rx.seen_rx) 0x6d (record polled { budget_hit = true })
      else polled in
    (
      work,
      mark_if c.rx_marks 0x7e
          (record hit { busy = ltb 0 work; completed = ltb work budget || s.completed }),
    )

-- `sp_napi_poll`
pub napi_poll : Config → (ℕ → Hw → Hw) → ℕ → Poll → ℕ × Poll
napi_poll c env budget s =
    let t = mark_if c.rx_marks 0x7d s in
    poll_end c budget (rx_loop budget env s.rx c) (record t { tx = reclaim c s.tx })

-- `sp_poll_ns`, of the module parameter `poll_us`.
pub poll_ns : ℕ → ℕ
poll_ns poll_us = if ltb poll_us 100 then 100 * 1000 else poll_us * 1000

-- `sp_poll_busy_ns`
pub poll_busy_ns : ℕ → ℕ → ℕ
poll_busy_ns poll_busy_us poll_us =
    let us = if ltb poll_busy_us 5 then 5 else poll_busy_us in
    if ltb poll_us us then poll_us * 1000 else us * 1000

-- `sp_poll_tick`: `none` is HRTIMER_NORESTART, else the timer is forwarded by the period.
pub poll_tick : Config → ℕ → ℕ → Poll → Option ℕ × Poll
poll_tick c poll_busy_us poll_us s =
    let t = mark_if c.rx_marks 0x7f s in
    if not s.running then (none, s) else (
      some (if s.busy then poll_busy_ns poll_busy_us poll_us else poll_ns poll_us),
      record t { scheduled = s.scheduled + 1 },
    )
