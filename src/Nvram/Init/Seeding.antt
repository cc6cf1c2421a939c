-- ===== src/Nvram/Init/Seeding.antt =====
-- shim_nvram.c's stores with memory to spare: plain updates of the map, the seed loop among them.
use cudy_wr3600_openwrt.Prelude.{
  All, Bool, List, Memory, false, free_if, length, ◌≢◌, Bool-cases, CString, Option, [], arith,
  granted, if◌then◌else◌, inl, inr, none, refl, request, some, str_eq, true, ℕ, ◌&&◌, ◌+◌, ◌∙◌, ◌∷◌,
  ◌≡◌,
}
use cudy_wr3600_openwrt.Nvram.{Entry, Nvram, k_set_worker, set_locked, or_empty}
use cudy_wr3600_openwrt.Nvram.Store.{lookup, lookup-k_set}
use cudy_wr3600_openwrt.Nvram.Init.{seed_all}

-- The allocator meets every request.
abbrev pub Ample : Nvram → Type 0
Ample s = (n : ℕ) → s.mem.grants n ≡ true

grants-set_locked :
    (name value : CString) (s : Nvram) → (set_locked name value s).1.mem.grants ≡ s.mem.grants
unfolding set_locked
grants-set_locked name value s = ground arith

set_locked_ok : (name value : CString) (s : Nvram) → Ample s → (set_locked name value s).0 ≡ 0
unfolding set_locked
set_locked_ok name value s h = ground (arith, h s.mem.asked)

grants-free_if : (b : Bool) (m : Memory) → (free_if b m).grants ≡ m.grants
grants-free_if true m = refl
grants-free_if false m = refl

pub grants-k_set :
    (name value : Option CString) (s : Nvram)
    → (k_set_worker name value s).1.mem.grants ≡ s.mem.grants
unfolding k_set_worker
grants-k_set none value s = refl
grants-k_set (some []) value s = refl
grants-k_set (some (c ∷ name)) value s =
    elim (Bool-cases (granted s.mem && granted (request s.mem))) [
      | inl g ↦ rw g (grants-set_locked (c ∷ name) (or_empty value) _)
      | inr r ↦ rw (r, grants-free_if, grants-free_if)
    ]

pub Ample-k_set :
    (name value : Option CString) (s : Nvram) → Ample s → Ample (k_set_worker name value s).1
Ample-k_set name value s h n = rw (grants-k_set name value s) (h n)

k_set_ok :
    (c : ℕ) (name value : CString) (s : Nvram)
    → Ample s
    → (k_set_worker (some (c ∷ name)) (some value) s).0 ≡ 0
unfolding k_set_worker
k_set_ok c name value s h =
    rw (h s.mem.asked, h (s.mem.asked + 1)) (set_locked_ok (c ∷ name) value _ h)

-- With memory to spare, a store is a plain update of the map.
pub lookup-store :
    (c : ℕ) (name value : CString) (s : Nvram) (j : CString)
    → Ample s
    → lookup j (k_set_worker (some (c ∷ name)) (some value) s).1
      ≡ (if str_eq (c ∷ name) j then some value else lookup j s)
lookup-store c name value s j h =
    lookup-k_set c name (some value) s j ∙ rw (k_set_ok c name value s h)

-- The value of the last entry of that name.
abbrev pub last_value : CString → List Entry → Option CString
last_value j [] = none
last_value j (e ∷ es) = elim (last_value j es) [
  | some v ↦ some v
  | none ↦ if str_eq e.name j then some e.value else none
]

abbrev pub or_else : Option CString → Option CString → Option CString
or_else none o = o
or_else (some v) o = some v

abbrev pub IsNamed : Entry → Type 0
IsNamed e = e.name ≢ []

pub lookup-store_entry :
    (name value : CString) (s : Nvram) (j : CString)
    → name ≢ []
    → Ample s
    → (lookup j (k_set_worker (some name) (some value) s).1
        ≡ (if str_eq name j then some value else lookup j s))
      × ((k_set_worker (some name) (some value) s).0 ≡ 0)
lookup-store_entry [] value s j h a = absurd (h refl)
lookup-store_entry (c ∷ name) value s j h a =
    (lookup-store c name value s j a, k_set_ok c name value s a)

-- With memory to spare, the seed's loop takes every entry, each name reads back as its last value in
-- the table, and other names as before.
pub lookup-seed_all :
    (es : List Entry) (k : ℕ) (s : Nvram) (j : CString)
    → Ample s
    → All IsNamed es
    → (lookup j (seed_all es k s).1 ≡ or_else (last_value j es) (lookup j s))
      × ((seed_all es k s).0 ≡ k + length es)
      × Ample (seed_all es k s).1
unfolding seed_all
lookup-seed_all [] k s j a n = (refl, omega arith, a)
lookup-seed_all (e ∷ es) k s j a n =
    let (here, zero_ret) = lookup-store_entry e.name e.value s j n.0 a in
    let (later, count, ample) =
      lookup-seed_all es (k + 1) (k_set_worker (some e.name) (some e.value) s).1 j
        (Ample-k_set _ _ s a) n.1 in
    rw (zero_ret, seed_all) (ground (arith, here, later), omega (arith, count), ample)
