-- ===== src/Nvram/Valid.antt =====
-- The invariant of the list behind shim_nvram.c, and the order of its entries.
use cudy_wr3600_openwrt.Prelude.{
  All, All-append, Bool-cases, CString, List, Option, Option-cases, [], ap, arith, false, granted,
  if◌then◌else◌, inl, inr, length, length-append, none, refl, request, some, str_eq, str_eq_iff, ℕ,
  ◌*◌, ◌++◌, ◌+◌, ◌∷◌, ◌≡◌, ◌≢◌,
}
use cudy_wr3600_openwrt.Nvram.{
  Entry, Nvram, find_locked, replace_value, set_locked, k_set_worker, or_empty,
}

-- The entry names in list order.
abbrev pub names : List Entry → List CString
names [] = []
names (e ∷ es) = e.name ∷ names es

abbrev pub Fresh : CString → List CString → Type 0
Fresh name [] = Unit
Fresh name (n ∷ ns) = (str_eq n name ≡ false) × Fresh name ns

abbrev pub Distinct : List CString → Type 0
Distinct [] = Unit
Distinct (n ∷ ns) = Fresh n ns × Distinct ns

-- No name is empty or stored twice, and each entry owns three allocations: itself and its strings.
pub record IsValid (s : Nvram) : Type 0 where
  pub distinct : Distinct (names s.entries)
  pub named : All (λ n. n ≢ []) (names s.entries)
  pub accounted : s.mem.live ≡ 3 * length s.entries

names-replace :
    (name value : CString) (es : List Entry) → names (replace_value name value es) ≡ names es
unfolding replace_value
names-replace name value [] = refl
names-replace name value (e ∷ es) = ground (arith, names-replace name value es)

length-replace :
    (name value : CString) (es : List Entry) → length (replace_value name value es) ≡ length es
unfolding replace_value
length-replace name value [] = refl
length-replace name value (e ∷ es) = ground (arith, length-replace name value es)

names-append : (es : List Entry) (e : Entry) → names (es ++ e ∷ []) ≡ names es ++ e.name ∷ []
names-append [] e = refl
names-append (x ∷ es) e = ap (λ r. x.name ∷ r) (names-append es e)

find-Fresh : (name : CString) (es : List Entry) → find_locked name es ≡ none → Fresh name (names es)
unfolding find_locked
find-Fresh name [] h = tt
find-Fresh name (e ∷ es) h = elim (Bool-cases (str_eq e.name name)) [
  | inl same ↦ absurd (ground arith)
  | inr other ↦ (other, find-Fresh name es (ground arith))
]

str_eq_comm : (a b : CString) → str_eq a b ≡ false → str_eq b a ≡ false
str_eq_comm a b h = ground (arith, str_eq_iff a b, str_eq_iff b a)

Fresh-append :
    (n m : CString) (ns : List CString) → Fresh n ns → str_eq m n ≡ false → Fresh n (ns ++ m ∷ [])
Fresh-append n m [] f h = (h, tt)
Fresh-append n m (x ∷ ns) f h = (f.0, Fresh-append n m ns f.1 h)

Distinct-append :
    (ns : List CString) (m : CString) → Distinct ns → Fresh m ns → Distinct (ns ++ m ∷ [])
Distinct-append [] m d f = (tt, tt)
Distinct-append (n ∷ ns) m d f =
    (Fresh-append n m ns d.0 (str_eq_comm n m f.0), Distinct-append ns m d.1 f.1)

-- What a store keeps of the list: nothing is lost or moved, and a new name goes to the end.
pub names-set_locked :
    (name value : CString) (s : Nvram)
    → names (set_locked name value s).1.entries ≡ (elim (find_locked name s.entries) [
      | none ↦ if granted s.mem then names s.entries ++ (name ∷ []) else names s.entries
      | some e ↦ names s.entries
    ])
unfolding set_locked
names-set_locked name value s = ground (
  arith,
  names-replace name value s.entries,
  names-append s.entries (record { name = name; value = value }),
)

set_locked-IsValid :
    (c : ℕ) (rest value : CString) (s : Nvram)
    → Distinct (names s.entries)
    → All (λ n. n ≢ []) (names s.entries)
    → s.mem.live ≡ 3 * length s.entries + 2
    → IsValid (set_locked (c ∷ rest) value s).1
unfolding set_locked
set_locked-IsValid c rest value s d n a = elim (Option-cases (find_locked (c ∷ rest) s.entries)) [
  | inl e ↦ elim (Bool-cases (granted s.mem)) [
    | inl g ↦
        rw (e, set_locked, g)
          (record {
            distinct = rw names-append (
                Distinct-append (names s.entries) (c ∷ rest) d (find-Fresh (c ∷ rest) s.entries e));
            named = rw names-append (All-append _ (names s.entries) _ n ((λ h. cc), tt));
            accounted = rw length-append (omega arith);
          })
    | inr r ↦ rw (e, set_locked, r) (record { distinct = d; named = n; accounted = omega arith })
  ]
  | inr (f, e) ↦
      rw (e, set_locked)
        (record {
          distinct = rw names-replace d;
          named = rw names-replace n;
          accounted = omega (arith, length-replace (c ∷ rest) value s.entries);
        })
]

-- Every call of `k_set`, whether it stores, replaces or fails for want of memory, keeps the list
-- free of repeated and of empty names, and leaks and double-frees nothing.
pub k_set-IsValid :
    (name value : Option CString) (s : Nvram) → IsValid s → IsValid (k_set_worker name value s).1
unfolding k_set_worker
k_set-IsValid none value s v = v
k_set-IsValid (some []) value s v = v
k_set-IsValid (some (c ∷ rest)) value s v = elim (Bool-cases (granted s.mem)) [
  | inl g ↦ elim (Bool-cases (granted (request s.mem))) [
    | inl g2 ↦
        rw (g, g2) (set_locked-IsValid c rest (or_empty value) _ v.distinct v.named (omega arith))
    | inr r2 ↦
        rw (g, r2) (record { distinct = v.distinct; named = v.named; accounted = omega arith })
  ]
  | inr r ↦ elim (Bool-cases (granted (request s.mem))) [
    | inl g2 ↦
        rw (r, g2) (record { distinct = v.distinct; named = v.named; accounted = omega arith })
    | inr r2 ↦
        rw (r, r2) (record { distinct = v.distinct; named = v.named; accounted = omega arith })
  ]
]
