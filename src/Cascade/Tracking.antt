-- ===== src/Cascade/Tracking.antt =====
-- What the link poll of cascade6764.c tells the switch and the serdes, over any number of polls.
use cudy_wr3600_openwrt.Prelude.{
  Bool, List, Option, Result, [], err, none, ok, some, suc, zero, ℕ, ◌+◌, ◌∷◌, ◌≡◌, ◌≢◌,
}
use cudy_wr3600_openwrt.Cascade.{Bus}
use cudy_wr3600_openwrt.Cascade.Polls.{answer_at}
use cudy_wr3600_openwrt.Cascade.Link.{
  Config, Call, forces, retunes, Poll, link_of, mbps_of, poll_fn,
}

-- A number of polls.
pub run_polls : Config → ℕ → Poll → Poll
run_polls c zero p = p
run_polls c (suc n) p = poll_fn c (run_polls c n p)

abbrev answered : Option (Bool × ℕ) → Result ℕ → Option (Bool × ℕ)
answered before (err e) = before
answered before (ok v) = some (link_of v, mbps_of v)

-- The link and the speed of the newest of the first `n` answers that could be read.
pub latest : Bus → ℕ → Option (Bool × ℕ)
latest b zero = none
latest b (suc n) = answered (latest b n) (answer_at 0x1e 0x400d n b)

-- The states that the switch was told, newest first, and the rates that the serdes was set to.
pub told : List Call → List (Bool × ℕ)
told [] = []
told (forces port mbps link ∷ cs) = (link, mbps) ∷ told cs
told (retunes core mbps ∷ cs) = told cs

abbrev pub newest {ℓ} : {A : Type ℓ} → List A → Option A
newest [] = none
newest (x ∷ xs) = some x

-- No state is told twice in a row.
abbrev pub Alternates : List (Bool × ℕ) → Type 0
Alternates [] = Unit
Alternates (x ∷ []) = Unit
Alternates (x ∷ y ∷ rest) = (x ≢ y) × Alternates (y ∷ rest)

pub record Tracks (b : Bus) (n : ℕ) (p : Poll) : Type 0 where
  pub bus : p.bus ≡ record b { reads = b.reads + n }
  pub last : p.last ≡ latest b n
  pub current : newest (told p.calls) ≡ p.last
  pub alternates : Alternates (told p.calls)

-- What one status word does.
abbrev Handled : ℕ → Poll → Type 0
Handled v t =
    (t.last ≡ some (link_of v, mbps_of v))
    × (newest (told t.calls) ≡ t.last)
    × Alternates (told t.calls)
