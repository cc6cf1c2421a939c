-- ===== src/Dma/Handles.antt =====
-- The 64-bit handles of shim_dma.c: what was allocated or mapped can be given back.
use cudy_wr3600_openwrt.Prelude.{
  ◌<◌, Bool, ap, arith, if◌then◌else◌, inl, inr, refl, ◌&&◌, ◌==◌, ◌∙◌, List, false, ltb, not, true,
  ℕ, ◌∷◌, ◌≡◌, ◌≢◌, ◌≤◌, ◌⊎◌,
}
use cudy_wr3600_openwrt.Dma.{
  Dma, Native, allocs, frees, maps, unmaps, dma419_device, get_device, put_device,
}
use cudy_wr3600_openwrt.Slots.{value_of}
use cudy_wr3600_openwrt.Dma.Gfp.{shim_gfp419}
use cudy_wr3600_openwrt.Dma.Ops.{
  Api, alloc, free, map_page, unmap_page, mapping_error, u32_max, dma419_error, issue, dma419_args,
  allocated, mapped,
}

-- An allocation that was refused, or that a free gives back to the native device with its own address.
abbrev pub Allocated : Api → ℕ → ℕ → ℕ → Dma → ℕ × ℕ × Dma → Type 0
Allocated a old size gfp d (cpu, handle, t) =
    let dev = value_of old d.slots in
    ((cpu ≡ 0) × (handle ≡ dma419_error) × (mapping_error old handle ≡ true))
    ⊎ ((cpu ≢ 0)
        × ((free old size cpu handle 0 t).calls
            ≡ frees dev size cpu handle 0
              ∷ allocs dev size (shim_gfp419 a.gfp_value gfp) 0
              ∷ d.calls))

free-calls :
    (old dev size cpu handle : ℕ) (t : Dma)
    → value_of old t.slots ≡ dev
    → dev ≢ 0
    → handle ≤ u32_max
    → (free old size cpu handle 0 t).calls ≡ frees dev size cpu handle 0 ∷ t.calls
unfolding free dma419_device
free-calls old dev size cpu handle t same h le = ground (arith, same)

error-refused : (old : ℕ) → mapping_error old dma419_error ≡ true
unfolding mapping_error
error-refused old = refl

handle-accepted : (old handle : ℕ) → handle < u32_max → mapping_error old handle ≡ false
unfolding mapping_error
handle-accepted old handle le = ground arith

Allocated-given :
    (b : Bool) (a : Api) (old size gfp : ℕ) (d : Dma)
    → ((cs : List Native) → (a.alloc_answer cs).1 ≤ u32_max)
    → value_of old d.slots ≢ 0
    → let dev = value_of old d.slots in
      let c = allocs dev size (shim_gfp419 a.gfp_value gfp) 0 in
      let answer = a.alloc_answer (c ∷ d.calls) in
      (answer.0 == 0) ≡ b
      → Allocated a old size gfp d (
        answer.0,
        if b then dma419_error else answer.1,
        put_device dev (issue c (get_device dev d)),
      )
Allocated-given true a old size gfp d le h e = inl (ground (arith, e), refl, error-refused old)
Allocated-given false a old size gfp d le h e =
    let dev = value_of old d.slots in
    let c = allocs dev size (shim_gfp419 a.gfp_value gfp) 0 in
    let answer = a.alloc_answer (c ∷ d.calls) in
    let t = put_device dev (issue c (get_device dev d)) in
    let log : t.calls ≡ c ∷ d.calls = ground arith in
    inr (
      λ z. ground (arith, e, z),
      free-calls old dev size answer.0 answer.1 t (ground arith) h (le (c ∷ d.calls))
          ∙ ap (λ cs. frees dev size answer.0 answer.1 0 ∷ cs) log,
    )

Allocated-if :
    (b : Bool) (a : Api) (old size gfp : ℕ) (d : Dma)
    → ((cs : List Native) → (a.alloc_answer cs).1 ≤ u32_max)
    → let dev = value_of old d.slots in
      (b ≡ true → dev ≢ 0)
      → Allocated a old size gfp d (
          if b
          then allocated a dev (allocs dev size (shim_gfp419 a.gfp_value gfp) 0) (get_device dev d)
          else (0, dma419_error, put_device dev (get_device dev d)))
Allocated-if false a old size gfp d le h = inl (refl, refl, error-refused old)
Allocated-if true a old size gfp d le h =
    let dev = value_of old d.slots in
    let c = allocs dev size (shim_gfp419 a.gfp_value gfp) 0 in
    Allocated-given ((a.alloc_answer (c ∷ d.calls)).0 == 0) a old size gfp d le (h refl) refl

-- An allocation is refused, which its handle tells, or freeing it with the address and the handle that
-- it gave reaches the native API with both of them, on the device that it was allocated on.
pub alloc-Allocated :
    (a : Api) (old size gfp : ℕ) (d : Dma)
    → ((cs : List Native) → (a.alloc_answer cs).1 ≤ u32_max)
    → Allocated a old size gfp d (alloc a old size true gfp 0 d)
unfolding alloc dma419_device
alloc-Allocated a old size gfp d h =
    Allocated-if (not (value_of old d.slots == 0) && true && not (size == 0) && dma419_args 0 0) a
      old size gfp d h (λ e. λ z. ground (arith, e, z))

-- A mapping that was refused, or one that an unmap gives back.
abbrev pub Mapped : Api → ℕ → ℕ → ℕ → ℕ → ℕ → Dma → ℕ × Dma → Type 0
Mapped a old page offset size dir d (handle, t) =
    let dev = value_of old d.slots in
    ((handle ≡ dma419_error) × (mapping_error old handle ≡ true))
    ⊎ ((mapping_error old handle ≡ false)
        × ((unmap_page a old handle size dir 0 t).calls
            ≡ unmaps dev handle size dir 0 ∷ maps dev page offset size dir 0 ∷ d.calls))

unmap_page-calls :
    (a : Api) (old dev handle size dir : ℕ) (t : Dma)
    → value_of old t.slots ≡ dev
    → dev ≢ 0
    → a.valid_direction dir ≡ true
    → handle ≤ u32_max
    → (unmap_page a old handle size dir 0 t).calls ≡ unmaps dev handle size dir 0 ∷ t.calls
unfolding unmap_page dma419_device
unmap_page-calls a old dev handle size dir t same h valid le = ground (arith, same, valid)

Mapped-given :
    (b : Bool) (a : Api) (old page offset size dir : ℕ) (d : Dma)
    → ((dev handle : ℕ) → a.mapping_fails dev handle ≡ not (ltb handle u32_max))
    → value_of old d.slots ≢ 0
    → a.valid_direction dir ≡ true
    → let dev = value_of old d.slots in
      let c = maps dev page offset size dir 0 in
      let handle = a.map_answer (c ∷ d.calls) in
      not (a.mapping_fails dev handle) ≡ b
      → Mapped a old page offset size dir d
          (if b then handle else dma419_error, put_device dev (issue c (get_device dev d)))
Mapped-given false a old page offset size dir d fails h valid e = inl (refl, error-refused old)
Mapped-given true a old page offset size dir d fails h valid e =
    let dev = value_of old d.slots in
    let c = maps dev page offset size dir 0 in
    let handle = a.map_answer (c ∷ d.calls) in
    let t = put_device dev (issue c (get_device dev d)) in
    let log : t.calls ≡ c ∷ d.calls = ground arith in
    let below : handle < u32_max = ground (arith, e, fails dev handle) in
    inr (
      handle-accepted old handle below,
      unmap_page-calls a old dev handle size dir t (ground arith) h valid (omega (arith, below))
          ∙ ap (λ cs. unmaps dev handle size dir 0 ∷ cs) log,
    )

Mapped-if :
    (b : Bool) (a : Api) (old page offset size dir : ℕ) (d : Dma)
    → ((dev handle : ℕ) → a.mapping_fails dev handle ≡ not (ltb handle u32_max))
    → let dev = value_of old d.slots in
      (b ≡ true → dev ≢ 0)
      → (b ≡ true → a.valid_direction dir ≡ true)
      → Mapped a old page offset size dir d (
          if b
          then mapped a dev (maps dev page offset size dir 0) (get_device dev d)
          else (dma419_error, put_device dev (get_device dev d)))
Mapped-if false a old page offset size dir d fails h valid = inl (refl, error-refused old)
Mapped-if true a old page offset size dir d fails h valid =
    let dev = value_of old d.slots in
    let c = maps dev page offset size dir 0 in
    Mapped-given (not (a.mapping_fails dev (a.map_answer (c ∷ d.calls)))) a old page offset size dir
      d fails (h refl) (valid refl) refl

-- A mapping is refused, and its handle is one that the shim's test for errors refuses, or the test
-- accepts it and an unmap with it reaches the native API on the device that it was mapped on.
pub map_page-Mapped :
    (a : Api) (old page offset size dir : ℕ) (d : Dma)
    → ((dev handle : ℕ) → a.mapping_fails dev handle ≡ not (ltb handle u32_max))
    → Mapped a old page offset size dir d (map_page a old page offset size dir 0 d)
unfolding map_page dma419_device
map_page-Mapped a old page offset size dir d h =
    Mapped-if
      (not (value_of old d.slots == 0)
        && not (page == 0)
        && not (size == 0)
        && a.valid_direction dir
        && dma419_args 0 0)
      a old page offset size dir d h (λ e. λ z. ground (arith, e, z)) (λ e. ground (arith, e))
