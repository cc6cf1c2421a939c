-- ===== src/DyingGasp/Table.antt =====
-- Registering and deregistering dying-gasp handlers in wl_compat.c.
use cudy_wr3600_openwrt.Prelude.{
  arith, ◌==◌, ◌≤◌, Bool, CString, List, Option, [], false, if◌then◌else◌, length, none, refl, some,
  suc, true, ℕ, ◌&&◌, ◌+◌, ◌<◌, ◌∷◌, ◌≡◌, ◌≢◌,
}
use cudy_wr3600_openwrt.DyingGasp.{Handler, short_name, place, register}

-- How many registered handlers pass a test: the table up to the order of its slots.
unfoldable pub tally : (Handler → Bool) → List Handler → ℕ
tally test [] = 0
tally test (x ∷ xs) = let rest = tally test xs in if x.used && test x then suc rest else rest

abbrev pub any_handler : Handler → Bool
any_handler h = true

tally-length : (test : Handler → Bool) (xs : List Handler) → tally test xs ≤ length xs
unfolding tally
tally-length test [] = omega arith
tally-length test (x ∷ xs) = ground (arith, tally-length test xs)

-- The handler that a registration makes.
abbrev pub made : CString → ℕ → ℕ → Handler
made devname cbfn ctx = record { name = short_name devname; cbfn = cbfn; ctx = ctx; used = true }

abbrev pub Placed : Handler → List Handler → Option (List Handler) → Type 0
Placed h tab none = tally any_handler tab ≡ length tab
Placed h tab (some tab') =
    (length tab' ≡ length tab)
    × (tally any_handler tab < length tab)
    × ((test : Handler → Bool) → tally test tab' ≡ tally test tab + (if test h then 1 else 0))

Placed-further :
    (h x : Handler) (xs : List Handler) (o : Option (List Handler))
    → x.used ≡ true
    → Placed h xs o
    → Placed h (x ∷ xs) (elim o [ none ↦ none | some ys ↦ some (x ∷ ys) ])
unfolding tally
Placed-further h x xs none u p = ground (arith, p)
Placed-further h x xs (some ys) u (size, room, same) =
    (omega (arith, size), ground (arith, room), λ test. ground (arith, same test))

Placed-here :
    (h x : Handler) (xs : List Handler)
    → h.used ≡ true
    → x.used ≡ false
    → Placed h (x ∷ xs) (some (h ∷ xs))
unfolding tally
Placed-here h x xs u f = (refl, ground (arith, tally-length any_handler xs), λ test. ground arith)

Placed-if :
    (b : Bool) (h x : Handler) (xs : List Handler)
    → h.used ≡ true
    → Placed h xs (place h xs)
    → x.used ≡ b
    → Placed h
        (x ∷ xs)
        (if b then elim (place h xs) [ none ↦ none | some ys ↦ some (x ∷ ys) ] else some (h ∷ xs))
Placed-if true h x xs u p e = Placed-further h x xs (place h xs) e p
Placed-if false h x xs u p e = Placed-here h x xs u e

place-Placed : (h : Handler) (tab : List Handler) → h.used ≡ true → Placed h tab (place h tab)
unfolding place tally
place-Placed h [] u = refl
place-Placed h (x ∷ xs) u = Placed-if x.used h x xs u (place-Placed h xs u) refl

-- What a registration reports and did.
abbrev pub Registered : CString → ℕ → ℕ → List Handler → Bool × List Handler → Type 0
Registered devname cbfn ctx tab (false, tab') = (tab' ≡ tab) × (tally any_handler tab ≡ length tab)
Registered devname cbfn ctx tab (true, tab') = Placed (made devname cbfn ctx) tab (some tab')

Registered-at :
    (devname : CString) (cbfn ctx : ℕ) (tab : List Handler) (o : Option (List Handler))
    → Placed (made devname cbfn ctx) tab o
    → Registered devname cbfn ctx tab (elim o [ none ↦ (false, tab) | some tab' ↦ (true, tab') ])
Registered-at devname cbfn ctx tab none p = (refl, p)
Registered-at devname cbfn ctx tab (some tab') p = p

-- A registration with a name and a callback succeeds exactly while a slot is free. Then the handlers
-- of the table are those it had and the new one, under its first 15 characters; else the table is
-- unchanged.
pub register-Registered :
    (devname : CString) (cbfn ctx : ℕ) (tab : List Handler)
    → cbfn ≢ 0
    → Registered devname cbfn ctx tab (register (some devname) cbfn ctx tab)
unfolding register
register-Registered devname cbfn ctx tab h =
    let nonnull : cbfn == 0 ≡ false = ground arith in
    rw (nonnull, register)
      (Registered-at devname cbfn ctx tab (place (made devname cbfn ctx) tab)
        (place-Placed (made devname cbfn ctx) tab refl))
