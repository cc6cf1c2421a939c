-- ===== src/Prelude/Alloc.antt =====
-- `kmalloc`, `kzalloc`, `kstrdup` and `kfree`: the allocator answers each request as it likes, and
-- the number of objects that are allocated and not yet freed is counted.
use Prim.Native.Nat.{ℕ, ◌+◌, ◌-◌}
use mathlib.Core.Bool.{Bool, true, false}
use cudy_wr3600_openwrt.Prelude.Tests.{if◌then◌else◌}

-- `grants n` says whether the request number `n` is met.
pub record Memory : Type 0 where
  pub grants : ℕ → Bool
  pub asked : ℕ
  pub live : ℕ

abbrev pub request : Memory → Memory
request h = record h { asked = h.asked + 1; live = if h.grants h.asked then h.live + 1 else h.live }

abbrev pub granted : Memory → Bool
granted h = h.grants h.asked

abbrev pub free_one : Memory → Memory
free_one h = record h { live = h.live - 1 }

-- `kfree(p)` of a pointer that is NULL when its allocation was refused.
abbrev pub free_if : Bool → Memory → Memory
free_if true h = free_one h
free_if false h = h
