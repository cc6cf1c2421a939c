-- ===== src/Nvram/Store.antt =====
-- shim_nvram.c as a map: what `k_set` does to every later lookup, and the store's invariant.
use cudy_wr3600_openwrt.Prelude.{
  inl, inr, request, ◌&&◌, Option-cases, granted, Bool-cases, ℕ, Option, none, some, List, [], ◌∷◌,
  ◌++◌, ◌≡◌, ◌≢◌, refl, CString, str_eq, str_eq_iff, ◌==◌, if◌then◌else◌, arith,
}
use cudy_wr3600_openwrt.Nvram.{
  set_locked, Entry, Nvram, find_locked, replace_value, k_set_worker, or_empty,
}

abbrev pub value_of : Option Entry → Option CString
value_of none = none
value_of (some e) = some e.value

-- The value that the store holds under a name.
abbrev pub lookup : CString → Nvram → Option CString
lookup name s = value_of (find_locked name s.entries)

find-append :
    (j name value : CString) (es : List Entry)
    → value_of (find_locked j (es ++ (record { name = name; value = value } ∷ [])))
      ≡ (elim (find_locked j es) [
        | some e ↦ some e.value
        | none ↦ if str_eq name j then some value else none
      ])
unfolding find_locked
find-append j name value [] = ground arith
find-append j name value (e ∷ es) = ground (arith, find-append j name value es)

find-replace :
    (j name value : CString) (es : List Entry)
    → find_locked name es ≢ none
    → value_of (find_locked j (replace_value name value es))
      ≡ (if str_eq name j then some value else value_of (find_locked j es))
unfolding find_locked replace_value
find-replace j name value [] h = absurd (h refl)
find-replace j name value (e ∷ es) h = ground (
  arith,
  find-replace j name value es,
  str_eq_iff name j,
  str_eq_iff e.name j,
  str_eq_iff e.name name,
)

find-name :
    (name : CString) (es : List Entry) (f : Entry) → find_locked name es ≡ some f → f.name ≡ name
unfolding find_locked
find-name name [] f h = cc
find-name name (e ∷ es) f h = ground (arith, find-name name es f, str_eq_iff e.name name)

lookup-set_locked :
    (name value : CString) (s : Nvram) (j : CString)
    → lookup j (set_locked name value s).1 ≡ (
        if (set_locked name value s).0 == 0
        then if str_eq name j then some value else lookup j s
        else lookup j s)
unfolding set_locked
lookup-set_locked name value s j = elim (Option-cases (find_locked name s.entries)) [
  | inl e ↦ elim (Bool-cases (granted s.mem)) [
    | inl g ↦
        rw (e, set_locked, g)
          (ground (arith, find-append j name value s.entries, str_eq_iff name j))
    | inr r ↦ rw (e, set_locked, r)
  ]
  | inr (f, e) ↦ rw (e, set_locked) (find-replace j name value s.entries (λ n. cc))
]

-- Storing a non-empty name makes it read back as the stored string (a NULL value as the empty
-- string) and leaves every other name as it was; a refused store, for want of memory, changes no
-- lookup at all.
pub lookup-k_set :
    (c : ℕ) (name : CString) (value : Option CString) (s : Nvram) (j : CString)
    → lookup j (k_set_worker (some (c ∷ name)) value s).1 ≡ (
        if (k_set_worker (some (c ∷ name)) value s).0 == 0
        then if str_eq (c ∷ name) j then some (or_empty value) else lookup j s
        else lookup j s)
unfolding k_set_worker
lookup-k_set c name value s j = elim (Bool-cases (granted s.mem && granted (request s.mem))) [
  | inl g ↦ rw g (lookup-set_locked (c ∷ name) (or_empty value) _ j)
  | inr r ↦ rw r
]
