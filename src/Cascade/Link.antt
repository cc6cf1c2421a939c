-- ===== src/Cascade/Link.antt =====
-- The link poll of cascade6764.c.
use cudy_wr3600_openwrt.Prelude.{
  Bool, List, Option, err, false, if◌then◌else◌, ltb, none, not, ok, some, true, ℕ, ◌%◌, ◌&&◌, ◌+◌,
  ◌/◌, ◌==◌, ◌^◌, ◌∷◌,
}
use cudy_wr3600_openwrt.Cascade.{Bus, rd}

-- The parameters; `none` is a negative port or core.
pub record Config : Type 0 where
  pub sf2_port : Option ℕ
  pub serdes_core : Option ℕ
  pub track_speed : Bool
  pub poll_ms : ℕ

-- A call of sf2_6764_force_port_state, or of serdes6764_speed_set.
pub data Call : Type 0 where
  forces : (port mbps : ℕ) (link : Bool) → Call
  retunes : (core mbps : ℕ) → Call

-- The bus, the last link and speed that were handled (`none` before the first), the calls into the
-- other drivers, newest first, and the number of polls that were scheduled.
pub record Poll : Type 0 where
  pub bus : Bus
  pub last : Option (Bool × ℕ)
  pub calls : List Call
  pub scheduled : ℕ

-- `speed_of`
unfoldable pub speed_of : ℕ → ℕ
speed_of mode =
    if mode == 7
    then 10
    else if mode == 2
    then 100
    else if mode == 4
    then 1000
    else if mode == 1
    then 2500
    else if mode == 3
    then 5000
    else if mode == 6
    then 10000
    else 0

-- The host-side rate for a copper rate.
abbrev pub line_rate : ℕ → ℕ
line_rate mbps = if ltb 1000 mbps then 2500 else 1000

abbrev pub retune : Config → ℕ → List Call → List Call
retune c mbps calls = elim c.serdes_core [
  | none ↦ calls
  | some core ↦ if c.track_speed then retunes core (line_rate mbps) ∷ calls else calls
]

abbrev pub force : Config → ℕ → Bool → List Call → List Call
force c mbps link calls = elim c.sf2_port [
  | none ↦ calls
  | some port ↦ forces port mbps link ∷ calls
]

-- `link_changed`
unfoldable pub link_changed : Config → Bool → ℕ → List Call → List Call
link_changed c link mbps calls =
    if link then force c mbps true (retune c mbps calls) else force c 0 false calls

abbrev pub same_link : Option (Bool × ℕ) → Bool → ℕ → Bool
same_link none link mbps = false
same_link (some (l, m)) link mbps = (if l then link else not link) && (m == mbps)

-- The status word of `30.400d`: bit 5 is the link and bits 4 to 2 the speed.
abbrev pub link_of : ℕ → Bool
link_of v = v / 2 ^ 5 % 2 == 1

unfoldable pub mbps_of : ℕ → ℕ
mbps_of v = if link_of v then speed_of (v / 2 ^ 2 % 8) else 0

unfoldable pub handle : Config → ℕ → Poll → Poll
handle c v p = if same_link p.last (link_of v) (mbps_of v) then p else record p {
  last = some (link_of v, mbps_of v);
  calls = link_changed c (link_of v) (mbps_of v) p.calls;
}

-- The work is scheduled again while there is a period.
abbrev pub reschedule : Config → Poll → Poll
reschedule c p = record p { scheduled = if ltb 0 c.poll_ms then p.scheduled + 1 else p.scheduled }

-- `poll_fn`
unfoldable pub poll_fn : Config → Poll → Poll
poll_fn c p =
    let r = rd 0x1e 0x400d p.bus in
    let read = record p { bus = r.1 } in
    reschedule c (elim r.0 as (λ x. Poll) [ err e ↦ read | ok v ↦ handle c v read ])
