-- ===== src/Cascade/Polls.antt =====
-- The polling loops of cascade6764.c: they end, and with what.
use cudy_wr3600_openwrt.Prelude.{
  sym, eio, Errno, Option, ap, etimedout, if◌then◌else◌, none, not, refl, some, ◌∙◌, ◌≤◌, ◌⊎◌, Bool,
  Result, arith, false, inl, inr, suc, true, zero, ℕ, ◌+◌, ◌<◌, ◌≡◌,
}
use cudy_wr3600_openwrt.Cascade.{Bus, rd, poll_until}
use cudy_wr3600_openwrt.Cascade.Firmware.{is_running, crc_good, polls, wait_firmware_alive}

-- The answer to the read of a register that is `i` reads from now.
abbrev pub answer_at : ℕ → ℕ → ℕ → Bus → Result ℕ
answer_at dev reg i b = b.answer b.writes (b.reads + i) dev reg

-- A poll that passed stopped at the first answer that passes the test; else none of the `n` did.
abbrev pub Polled : (Result ℕ → Bool) → ℕ → ℕ → ℕ → Bus → Bool × Bus → Type 0
Polled test dev reg n b (true, t) =
    (i : ℕ) × (i < n)
    × (test (answer_at dev reg i b) ≡ true)
    × ((j : ℕ) → j < i → test (answer_at dev reg j b) ≡ false)
    × (t ≡ record b { reads = b.reads + i + 1 })
Polled test dev reg n b (false, t) =
    ((j : ℕ) → j < n → test (answer_at dev reg j b) ≡ false)
    × (t ≡ record b { reads = b.reads + n })

one_on : Bus → Bus
one_on b = record b { reads = b.reads + 1 }

answer_later :
    (dev reg i : ℕ) (b : Bus) → answer_at dev reg (suc i) b ≡ answer_at dev reg i (one_on b)
unfolding one_on
answer_later dev reg i b =
    let count : b.reads + suc i ≡ b.reads + 1 + i = omega arith in
    ap (λ r. b.answer b.writes r dev reg) count

fails_before :
    (test : Result ℕ → Bool) (dev reg n : ℕ) (b : Bus)
    → test (answer_at dev reg 0 b) ≡ false
    → ((j : ℕ) → j < n → test (answer_at dev reg j (one_on b)) ≡ false)
    → (j : ℕ) → j < suc n
    → test (answer_at dev reg j b) ≡ false
fails_before test dev reg n b e h zero lt = e
fails_before test dev reg n b e h (suc j) lt =
    ap test (answer_later dev reg j b) ∙ h j (omega (arith, lt))

Polled-later :
    (test : Result ℕ → Bool) (dev reg n : ℕ) (b : Bus) (r : Bool × Bus)
    → test (answer_at dev reg 0 b) ≡ false
    → Polled test dev reg n (one_on b) r
    → Polled test dev reg (suc n) b r
unfolding one_on
Polled-later test dev reg n b (true, t) e (i, lt, pass, before, same) =
    let count : b.reads + 1 + i + 1 ≡ b.reads + suc i + 1 = omega arith in
    (
      suc i,
      omega (arith, lt),
      ap test (answer_later dev reg i b) ∙ pass,
      fails_before test dev reg i b e before,
      same ∙ ap (λ r. record b { reads = r }) count,
    )
Polled-later test dev reg n b (false, t) e (fails, same) =
    let count : b.reads + 1 + n ≡ b.reads + suc n = omega arith in
    (fails_before test dev reg n b e fails, same ∙ ap (λ r. record b { reads = r }) count)

first_answer : (dev reg : ℕ) (b : Bus) → answer_at dev reg 0 b ≡ (rd dev reg b).0
first_answer dev reg b =
    let count : b.reads + 0 ≡ b.reads = omega arith in ap (λ r. b.answer b.writes r dev reg) count

Polled-if :
    (p : Bool) (test : Result ℕ → Bool) (dev reg n : ℕ) (b : Bus) (rest : Bool × Bus)
    → test (rd dev reg b).0 ≡ p
    → Polled test dev reg n (one_on b) rest
    → Polled test dev reg (suc n) b (if p then (true, (rd dev reg b).1) else rest)
unfolding one_on
Polled-if true test dev reg n b rest e h =
    let count : b.reads + 1 ≡ b.reads + 0 + 1 = omega arith in
    (
      0,
      omega arith,
      ap test (first_answer dev reg b) ∙ e,
      λ j lt. absurd (omega (arith, lt)),
      ap (λ r. record b { reads = r }) count,
    )
Polled-if false test dev reg n b rest e h =
    Polled-later test dev reg n b rest (ap test (first_answer dev reg b) ∙ e) h

pub poll_until-Polled :
    (test : Result ℕ → Bool) (dev reg n : ℕ) (b : Bus)
    → Polled test dev reg n b (poll_until test dev reg n b)
unfolding poll_until one_on
poll_until-Polled test dev reg zero b =
    let count : b.reads ≡ b.reads + 0 = omega arith in
    (λ j lt. absurd (omega (arith, lt)), ap (λ r. record b { reads = r }) count)
poll_until-Polled test dev reg (suc n) b =
    Polled-if (test (rd dev reg b).0) test dev reg n b (poll_until test dev reg n (rd dev reg b).1)
      refl (poll_until-Polled test dev reg n (rd dev reg b).1)

-- What the wait for the firmware reports, and what it read.
abbrev pub Awaited : Bus → Option Errno × Bus → Type 0
Awaited b (o, t) =
    (t.writes ≡ b.writes)
    × (t.reads ≤ b.reads + 2001)
    × (((o ≡ some etimedout)
          × ((j : ℕ) → j < polls → is_running (answer_at 0x01 0x0000 j b) ≡ false))
        ⊎ ((i : ℕ) × (i < polls)
            × (is_running (answer_at 0x01 0x0000 i b) ≡ true)
            × (((o ≡ some eio)
                  × ((j : ℕ) → j < polls → crc_good (answer_at 0x1e 0x400d (i + 1 + j) b) ≡ false))
                ⊎ ((o ≡ none)
                    × (k : ℕ) × (k < polls)
                    × (crc_good (answer_at 0x1e 0x400d (i + 1 + k) b) ≡ true)))))

answer_after :
    (dev reg i k : ℕ) (b s : Bus)
    → s ≡ record b { reads = b.reads + i + 1 }
    → answer_at dev reg (i + 1 + k) b ≡ answer_at dev reg k s
answer_after dev reg i k b s e =
    let count : b.reads + (i + 1 + k) ≡ b.reads + i + 1 + k = omega arith in
    ap (λ r. b.answer b.writes r dev reg) count ∙ sym (ap (answer_at dev reg k) e)

-- The checksum's polls, after those of the processor.
Awaited-crc :
    (b : Bus) (i : ℕ) (s t : Bus) (p : Bool)
    → i < polls
    → is_running (answer_at 0x01 0x0000 i b) ≡ true
    → s ≡ record b { reads = b.reads + i + 1 }
    → Polled crc_good 0x1e 0x400d polls s (p, t)
    → Awaited b (if not p then (some eio, (rd 0x1e 0x400d t).1) else (none, t))
Awaited-crc b i s t true lt run e (k, lk, pass, before, same) = (
  ap (λ u. u.writes) same ∙ ap (λ u. u.writes) e,
  omega (arith, ap (λ u. u.reads) same, ap (λ u. u.reads) e, lt, lk),
  inr (i, lt, run, inr (refl, k, lk, ap crc_good (answer_after 0x1e 0x400d i k b s e) ∙ pass)),
)
Awaited-crc b i s t false lt run e (fails, same) = (
  ap (λ u. u.writes) same ∙ ap (λ u. u.writes) e,
  omega (arith, ap (λ u. u.reads) same, ap (λ u. u.reads) e, lt),
  inr (
    i,
    lt,
    run,
    inl (refl, λ j lj. ap crc_good (answer_after 0x1e 0x400d i j b s e) ∙ fails j lj),
  ),
)

Awaited-at :
    (b : Bus) (r q : Bool × Bus)
    → Polled is_running 0x01 0x0000 polls b r
    → Polled crc_good 0x1e 0x400d polls r.1 q
    → Awaited b (
        if not r.0
        then (some etimedout, (rd 0x01 0x0000 r.1).1)
        else if not q.0
        then (some eio, (rd 0x1e 0x400d q.1).1)
        else (none, q.1))
Awaited-at b (true, s) (p, t) (i, lt, run, before, same) h = Awaited-crc b i s t p lt run same h
Awaited-at b (false, s) q (fails, same) h =
    (ap (λ u. u.writes) same, omega (arith, ap (λ u. u.reads) same), inl (refl, fails))

-- The wait for the firmware ends: it succeeds when the processor was seen running within a thousand
-- reads and the checksum good within a thousand more, and else its error tells which of the two was
-- not. Nothing is written, and at most 2001 registers are read.
pub wait_firmware_alive-Awaited : (b : Bus) → Awaited b (wait_firmware_alive b)
unfolding wait_firmware_alive
wait_firmware_alive-Awaited b =
    let proc = poll_until is_running 0x01 0x0000 polls b in
    Awaited-at b proc (poll_until crc_good 0x1e 0x400d polls proc.1)
      (poll_until-Polled is_running 0x01 0x0000 polls b)
      (poll_until-Polled crc_good 0x1e 0x400d polls proc.1)
