-- ===== src/Sysport/Poll/Work.antt =====
-- What one NAPI poll of sysport6764.c gets done, and the periods of the poll timer.
use cudy_wr3600_openwrt.Prelude.{
  Option, false, none, some, true, ◌<◌, ◌↔◌, ap, inl, inr, ◌∙◌, arith, suc, zero, ℕ, ◌%◌, ◌+◌, ◌^◌,
  ◌≡◌, ◌≤◌, ◌⊎◌,
}
use Prim.Native.Nat.{min}
use cudy_wr3600_openwrt.Sysport.{Config, num_rx_bufs}
use cudy_wr3600_openwrt.Sysport.Rx.{Hw, Rx, RxResult, again, done, pending, rx_one}
use cudy_wr3600_openwrt.Sysport.Rx.Ring.{handled, Outcome, rx_one-Outcome}
use cudy_wr3600_openwrt.Sysport.Tx.{reclaim}
use cudy_wr3600_openwrt.Sysport.Poll.{
  Poll, rx_loop, mark_if, poll_end, napi_poll, poll_ns, poll_busy_ns, poll_tick,
}

-- What the loop with `left` to go does to the counters, whatever the hardware does.
abbrev pub Counted : ℕ → Rx → ℕ × Rx → Type 0
Counted left s (work, t) = (work ≤ left) × (handled t % 2 ^ 32 ≡ (handled s + work) % 2 ^ 32)

loop_step :
    (left : ℕ) (c : Config) (s : Rx) (first : RxResult × Rx) (rest : ℕ × Rx)
    → Outcome c s first
    → Counted left first.1 rest
    → Counted
        (suc left)
        s
        (elim first.0 as (λ x. ℕ × Rx) [ again ↦ (0, first.1) | done ↦ (suc rest.0, rest.1) ])
loop_step left c s (again, t) rest (inl (empty, same)) k =
    (omega arith, ap (λ u. (handled u) % 2 ^ 32) same ∙ omega arith)
loop_step left c s (again, t) rest (inr (ahead, none_left, hw, received, same, fifo)) k =
    (omega arith, ap (λ (n : ℕ). n % 2 ^ 32) same ∙ omega arith)
loop_step left c s (done, t) (work, u) o (bound, n) = (omega arith, omega (arith, o.counted, n))

rx_loop-Counted :
    (left : ℕ) (env : ℕ → Hw → Hw) (s : Rx) (c : Config) → Counted left s (rx_loop left env s c)
unfolding rx_loop
rx_loop-Counted zero env s c = (omega arith, ground arith)
rx_loop-Counted (suc left) env s c =
    let s' = record s { hw = env left s.hw } in
    let first = rx_one c s' in
    loop_step left c s' first (rx_loop left env first.1 c) (rx_one-Outcome c s')
      (rx_loop-Counted left env first.1 c)

-- Without the hardware's interference the loop takes what is there, up to the budget.
abbrev pub quiet : ℕ → Hw → Hw
quiet n hw = hw

abbrev pub Drained : ℕ → Rx → ℕ × Rx → Type 0
Drained left s (work, t) = (work ≡ min left (pending s)) × (pending t + work ≡ pending s)

drain_step :
    (left : ℕ) (c : Config) (s : Rx) (first : RxResult × Rx) (rest : ℕ × Rx)
    → pending s ≤ num_rx_bufs
    → Outcome c s first
    → (pending first.1 ≤ num_rx_bufs → Drained left first.1 rest)
    → Drained
        (suc left)
        s
        (elim first.0 as (λ x. ℕ × Rx) [ again ↦ (0, first.1) | done ↦ (suc rest.0, rest.1) ])
drain_step left c s (again, t) rest h (inl (empty, same)) k =
    (omega (arith, empty), omega (arith, ap pending same))
drain_step left c s (again, t) rest h (inr o) k = absurd (omega (arith, o.0))
drain_step left c s (done, t) (work, u) h o k =
    let (bound, n) = k (omega (arith, o.advanced)) in
    (omega (arith, o.advanced, bound), omega (arith, o.advanced, n))

rx_loop-Drained :
    (left : ℕ) (s : Rx) (c : Config)
    → pending s ≤ num_rx_bufs
    → Drained left s (rx_loop left quiet s c)
unfolding rx_loop
rx_loop-Drained zero s c h = ground arith
rx_loop-Drained (suc left) s c h =
    let first = rx_one c s in
    drain_step left c s first (rx_loop left quiet first.1 c) h (rx_one-Outcome c s)
      (rx_loop-Drained left first.1 c)

-- One call of `sp_napi_poll` whatever the hardware does between its steps.
abbrev pub PollOutcome : ℕ → Poll → ℕ × Poll → Type 0
PollOutcome budget s (work, t) =
    (work ≤ budget)
    × (handled t.rx % 2 ^ 32 ≡ (handled s.rx + work) % 2 ^ 32)
    × ((t.busy ≡ true) ↔ (0 < work))
    × (((work < budget) × (t.completed ≡ true))
        ⊎ ((work ≡ budget) × (t.completed ≡ s.completed) × (t.budget_hit ≡ true)))

poll_end_lem :
    (c : Config) (budget work : ℕ) (rx : Rx) (s : Poll)
    → work ≤ budget
    → ((poll_end c budget (work, rx) s).0 ≡ work)
      × ((poll_end c budget (work, rx) s).1.rx ≡ rx)
      × (((poll_end c budget (work, rx) s).1.busy ≡ true) ↔ (0 < work))
      × (((work < budget) × ((poll_end c budget (work, rx) s).1.completed ≡ true))
          ⊎ ((work ≡ budget)
              × ((poll_end c budget (work, rx) s).1.completed ≡ s.completed)
              × ((poll_end c budget (work, rx) s).1.budget_hit ≡ true)))
unfolding poll_end
poll_end_lem c budget work rx s h = ground arith

-- A poll never takes more frames than its budget, and the counters grow by exactly the frames it
-- takes. It leaves NAPI mode when it takes fewer; else NAPI stays scheduled and the exhausted budget is
-- noted. The flag that speeds the timer up says whether it took any.
pub napi_poll-PollOutcome :
    (c : Config) (env : ℕ → Hw → Hw) (budget : ℕ) (s : Poll)
    → PollOutcome budget s (napi_poll c env budget s)
unfolding napi_poll poll_end
napi_poll-PollOutcome c env budget s =
    let t = record (mark_if c.rx_marks 0x7d s) { tx = reclaim c s.tx } in
    let r = rx_loop budget env s.rx c in
    let (most, n) = rx_loop-Counted budget env s.rx c in
    let (w, e, b, ends) = poll_end_lem c budget r.0 r.1 t most in
    (
      most,
      ap (λ u. handled u % 2 ^ 32) e ∙ n,
      b,
      elim ends [
        | inl low ↦ inl low
        | inr (full, kept, hit) ↦ inr (full, kept ∙ ground arith, hit)
      ],
    )

-- A poll of a quiet ring takes what was waiting, up to the budget, and leaves the rest.
pub napi_poll-Drained :
    (c : Config) (budget : ℕ) (s : Poll)
    → pending s.rx ≤ num_rx_bufs
    → ((napi_poll c quiet budget s).0 ≡ min budget (pending s.rx))
      × (pending (napi_poll c quiet budget s).1.rx + (napi_poll c quiet budget s).0 ≡ pending s.rx)
unfolding napi_poll poll_end
napi_poll-Drained c budget s h =
    let t = record (mark_if c.rx_marks 0x7d s) { tx = reclaim c s.tx } in
    let r = rx_loop budget quiet s.rx c in
    let (w, e, b, ends) = poll_end_lem c budget r.0 r.1 t (rx_loop-Counted budget quiet s.rx c).0 in
    let (n, left) = rx_loop-Drained budget s.rx c h in (n, ap (λ u. pending u + r.0) e ∙ left)

-- The period in nanoseconds; no timer is no period.
abbrev pub period : Option ℕ → ℕ
period none = 0
period (some ns) = ns

-- The timer's period is positive, so that forwarding the timer ends, for all values of the parameters
-- except a busy poll with `poll_us` set to 0; there the period is 0.
pub period-poll_tick :
    (c : Config) (poll_busy_us poll_us : ℕ) (s : Poll)
    → s.running ≡ true
    → (0 < period (poll_tick c poll_busy_us poll_us s).0) ↔ (s.busy ≡ false ⊎ (0 < poll_us))
unfolding poll_tick poll_busy_ns poll_ns
period-poll_tick c poll_busy_us poll_us s on = ground arith
