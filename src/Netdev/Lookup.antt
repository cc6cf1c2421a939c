-- ===== src/Netdev/Lookup.antt =====
-- The map between the vendor's views and the native devices in shim_netdev.c.
use cudy_wr3600_openwrt.Prelude.{
  Bool-cases, List, [], arith, false, if◌then◌else◌, inl, inr, refl, sum_of, update, ℕ, ◌+◌, ◌-◌,
  ◌==◌, ◌||◌, ◌∷◌, ◌≡◌, ◌≢◌, ◌≤◌, ◌⊎◌,
}

-- `netdev419_entry`: a view in the vendor's layout and its native device.
pub record Entry : Type 0 where
  pub old : ℕ
  pub native : ℕ

-- `netdev419_views`, and the references on every native device.
pub record Views : Type 0 where
  pub entries : List Entry
  pub refs : ℕ → ℕ

-- The loop of shim_netdev_native.
unfoldable pub native_in : ℕ → List Entry → ℕ
native_in old [] = 0
native_in old (x ∷ xs) = let rest = native_in old xs in if x.old == old then x.native else rest

-- The loop of shim_netdev_legacy.
unfoldable pub legacy_in : ℕ → List Entry → ℕ
legacy_in native [] = 0
legacy_in native (x ∷ xs) =
    let rest = legacy_in native xs in if x.native == native then x.old else rest

-- `bcm_shim_dev_get_by_name_legacy`, where `device_named` is what the kernel finds, with a reference
-- taken, or NULL.
unfoldable pub get_by_name_legacy : (ℕ → ℕ → ℕ) → ℕ → ℕ → Views → ℕ × Views
get_by_name_legacy device_named net name s =
    let native = device_named net name in
    let got : Views = record s { refs = update s.refs native (s.refs native + 1) } in
    let dropped : Views = record got { refs = update got.refs native (got.refs native - 1) } in
    let old = legacy_in native s.entries in
    if (net == 0) || (name == 0)
    then (0, s)
    else if native == 0
    then (0, s)
    else if old == 0
    then (0, dropped)
    else (old, got)

abbrev viewed : ℕ → Entry → ℕ
viewed old x = if x.old == old then 1 else 0

abbrev backed : ℕ → Entry → ℕ
backed native x = if x.native == native then 1 else 0

-- Every view has one device and every device has one view.
pub record IsViews (xs : List Entry) : Type 0 where
  pub one_view : (old : ℕ) → sum_of (viewed old) xs ≤ 1
  pub one_device : (native : ℕ) → sum_of (backed native) xs ≤ 1

viewed_in :
    (native : ℕ) (xs : List Entry)
    → legacy_in native xs ≢ 0
    → 1 ≤ sum_of (viewed (legacy_in native xs)) xs
unfolding legacy_in
viewed_in native [] h = absurd (h refl)
viewed_in native (x ∷ xs) h = ground (arith, viewed_in native xs, h)

-- The device of the view of a device is that device.
native_in-legacy_in :
    (native : ℕ) (xs : List Entry)
    → ((old : ℕ) → sum_of (viewed old) xs ≤ 1)
    → legacy_in native xs ≢ 0
    → native_in (legacy_in native xs) xs ≡ native
unfolding native_in legacy_in
native_in-legacy_in native [] one h = absurd (h refl)
native_in-legacy_in native (x ∷ xs) one h = elim (Bool-cases (x.native == native)) [
  | inl e ↦ rw e (ground (arith, e))
  | inr e ↦
      let found : legacy_in native xs ≢ 0 = λ z. h (ground (arith, e, z)) in
      let there = viewed_in native xs found in
      let other : (x.old == legacy_in native xs) ≡ false =
        ground (arith, one (legacy_in native xs), there) in
      let known = native_in-legacy_in native xs (λ old. omega (arith, one old)) found in
      ground (arith, known, other, e)
]

-- A lookup by name that answers NULL has kept the references of every device; one that answers a view
-- has found the device of that view in the kernel, and has taken one reference, on that device.
pub get_by_name_legacy_lem :
    (device_named : ℕ → ℕ → ℕ) (net name : ℕ) (s : Views)
    → IsViews s.entries
    → let (old, t) = get_by_name_legacy device_named net name s in
      ((old ≡ 0) × ((n : ℕ) → t.refs n ≡ s.refs n))
      ⊎ ((old ≢ 0)
          × (native_in old t.entries ≡ device_named net name)
          × ((n : ℕ) → t.refs n ≡ s.refs n + (if device_named net name == n then 1 else 0)))
unfolding get_by_name_legacy
get_by_name_legacy_lem device_named net name s v =
    ground (arith, native_in-legacy_in (device_named net name) s.entries v.one_view)
