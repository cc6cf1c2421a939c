-- ===== src/DyingGasp/Names.antt =====
-- Deregistration by name in wl_compat.c's dying-gasp table, for names that fit and that do not.
use cudy_wr3600_openwrt.Prelude.{
  ltb, ◌==◌, All, Bool, Bool-cases, CString, List, Option, [], ap, arith, false, if◌then◌else◌, inl,
  inr, length, length-take, none, refl, some, str_eq_iff, str_eq_refl, take, take_all, true, ℕ,
  ◌&&◌, ◌<◌, ◌∷◌, ◌≡◌, ◌≤◌,
}
use cudy_wr3600_openwrt.DyingGasp.{
  Handler, name_size, short_name, same_name, place, register, remove, deregister,
}
use cudy_wr3600_openwrt.DyingGasp.Table.{tally, made}

-- No registered handler has that name.
abbrev pub IsUnknown : CString → List Handler → Type 0
IsUnknown devname = All (λ x. (x.used && same_name x.name devname) ≡ false)

-- The name of a registered handler fits with its NUL.
abbrev pub IsShort : Handler → Type 0
IsShort x = length x.name < name_size

same_name-short :
    (devname : CString) → length devname < 16 → same_name (short_name devname) devname ≡ true
same_name-short devname h =
    let whole : short_name devname ≡ devname = take_all 15 devname (omega arith) in
    rw whole (str_eq_refl (take 16 devname))

same_name-long :
    (name devname : CString)
    → length name < 16
    → 16 ≤ length devname
    → same_name name devname ≡ false
same_name-long name devname short long = elim (Bool-cases (same_name name devname)) [
  | inr ne ↦ ne
  | inl e ↦
      let same : take 16 name ≡ take 16 devname =
        (str_eq_iff (take 16 name) (take 16 devname)).0 e in
      absurd (
        omega (
          arith,
          ap length same,
          ap length (take_all 16 name (omega arith)),
          length-take 16 devname long,
        ))
]

-- The handlers of a table are the same, up to the slots' order and the unused slots.
abbrev pub SameHandlers : List Handler → List Handler → Type 0
SameHandlers a b = (test : Handler → Bool) → tally test a ≡ tally test b

abbrev Undone : CString → List Handler → Option (List Handler) → Type 0
Undone devname tab none = Unit
Undone devname tab (some tab') = SameHandlers (remove devname tab') tab

Undone-if :
    (b : Bool) (devname : CString) (h x : Handler) (xs : List Handler) (o : Option (List Handler))
    → h.used ≡ true
    → same_name h.name devname ≡ true
    → (x.used && same_name x.name devname) ≡ false
    → Undone devname xs o
    → x.used ≡ b
    → Undone devname
        (x ∷ xs)
        (if b then elim o [ none ↦ none | some ys ↦ some (x ∷ ys) ] else some (h ∷ xs))
unfolding remove tally
Undone-if true devname h x xs none u n k p e = tt
Undone-if true devname h x xs (some ys) u n k p e = λ test. rw k (ground (arith, p test))
Undone-if false devname h x xs o u n k p e = λ test. rw (u, n) (ground arith)

place-Undone :
    (devname : CString) (h : Handler) (tab : List Handler)
    → h.used ≡ true
    → same_name h.name devname ≡ true
    → IsUnknown devname tab
    → Undone devname tab (place h tab)
unfolding place
place-Undone devname h [] u n k = tt
place-Undone devname h (x ∷ xs) u n k =
    Undone-if x.used devname h x xs (place h xs) u n k.0 (place-Undone devname h xs u n k.1) refl

remove-unknown :
    (devname : CString) (tab : List Handler) → IsUnknown devname tab → remove devname tab ≡ tab
unfolding remove
remove-unknown devname [] v = refl
remove-unknown devname (x ∷ xs) v = rw v.0 (ap (λ ys. x ∷ ys) (remove-unknown devname xs v.1))

Undone-at :
    (devname : CString) (tab : List Handler) (o : Option (List Handler))
    → IsUnknown devname tab
    → Undone devname tab o
    → SameHandlers
        (remove devname
          (elim o as (λ x. Bool × List Handler) [
            | none ↦ (false, tab)
            | some tab' ↦ (true, tab')
          ]).1)
        tab
Undone-at devname tab none k p = λ test. ap (tally test) (remove-unknown devname tab k)
Undone-at devname tab (some tab') k p = p

-- For a name that fits and that no registered handler has, deregistering takes back a registration,
-- whether it succeeded or not: the registered handlers are those from before.
pub deregister-register :
    (devname : CString) (cbfn ctx : ℕ) (tab : List Handler)
    → length devname < name_size
    → IsUnknown devname tab
    → SameHandlers (deregister (some devname) (register (some devname) cbfn ctx tab).1) tab
unfolding deregister register
deregister-register devname cbfn ctx tab h k = elim (Bool-cases (cbfn == 0)) [
  | inl null ↦
      rw (null, register, deregister) (λ test. ap (tally test) (remove-unknown devname tab k))
  | inr callable ↦
      let m = made devname cbfn ctx in
      rw (callable, register, deregister)
        (Undone-at devname tab (place m tab) k
          (place-Undone devname m tab refl (same_name-short devname h) k))
]

long-IsUnknown :
    (devname : CString) (tab : List Handler)
    → 16 ≤ length devname
    → All IsShort tab
    → IsUnknown devname tab
long-IsUnknown devname [] h v = tt
long-IsUnknown devname (x ∷ xs) h v =
    (ground (arith, same_name-long x.name devname v.0 h), long-IsUnknown devname xs h v.1)

abbrev AllShort : Option (List Handler) → Type 0
AllShort none = Unit
AllShort (some tab) = All IsShort tab

length-short_name : (devname : CString) → length (short_name devname) < 16
length-short_name devname = elim (Bool-cases (ltb (length devname) 15)) [
  | inl fits ↦
      let small : length devname ≤ 15 = ground arith in
      omega (arith, ap length (take_all 15 devname small))
  | inr full ↦
      let big : 15 ≤ length devname = ground arith in omega (arith, length-take 15 devname big)
]

place_further :
    (b : Bool) (h x : Handler) (xs : List Handler) (o : Option (List Handler))
    → IsShort h
    → IsShort x
    → All IsShort xs
    → AllShort o
    → AllShort (if b then elim o [ none ↦ none | some ys ↦ some (x ∷ ys) ] else some (h ∷ xs))
place_further true h x xs none n k v p = tt
place_further true h x xs (some ys) n k v p = (k, p)
place_further false h x xs o n k v p = (n, v)

place-AllShort :
    (h : Handler) (tab : List Handler) → IsShort h → All IsShort tab → AllShort (place h tab)
unfolding place
place-AllShort h [] n v = tt
place-AllShort h (x ∷ xs) n v =
    place_further x.used h x xs (place h xs) n v.0 v.1 (place-AllShort h xs n v.1)

IsShort-at :
    (tab : List Handler) (o : Option (List Handler))
    → All IsShort tab
    → AllShort o
    → All IsShort
        (elim o as (λ x. Bool × List Handler) [ none ↦ (false, tab) | some tab' ↦ (true, tab') ]).1
IsShort-at tab none v p = v
IsShort-at tab (some tab') v p = p

-- Every registered name fits.
register-IsShort :
    (devname : CString) (cbfn ctx : ℕ) (tab : List Handler)
    → All IsShort tab
    → All IsShort (register (some devname) cbfn ctx tab).1
unfolding register
register-IsShort devname cbfn ctx tab v = elim (Bool-cases (cbfn == 0)) [
  | inl null ↦ rw (null, register) v
  | inr callable ↦
      let m = made devname cbfn ctx in
      rw (callable, register)
        (IsShort-at tab (place m tab) v (place-AllShort m tab (length-short_name devname) v))
]

-- In a table whose names all fit, after a registration under a name of 16 characters or more, whether
-- it succeeded or not, a deregistration of that name changes nothing: the truncated copy compares
-- different from the name.
pub deregister_long :
    (devname : CString) (cbfn ctx : ℕ) (tab : List Handler)
    → name_size ≤ length devname
    → All IsShort tab
    → deregister (some devname) (register (some devname) cbfn ctx tab).1
      ≡ (register (some devname) cbfn ctx tab).1
unfolding deregister register
deregister_long devname cbfn ctx tab h k =
    let short = register-IsShort devname cbfn ctx tab k in
    remove-unknown devname (register (some devname) cbfn ctx tab).1
      (long-IsUnknown devname (register (some devname) cbfn ctx tab).1 h short)
