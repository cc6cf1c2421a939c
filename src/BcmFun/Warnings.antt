-- ===== src/BcmFun/Warnings.antt =====
-- The messages of wl_compat.c's hook registry: one per id.
use cudy_wr3600_openwrt.Prelude.{
  List, [], arith, if◌then◌else◌, negsuc, pos, refl, suc, ℕ, ℤ, ◌<◌, ◌==◌, ◌∷◌, ◌≡◌, ◌≤◌,
}
use cudy_wr3600_openwrt.BcmFun.{Registry, empty_registry, max_ids, warn, get_at, get, reg, dereg}

-- A call into the registry.
pub data Call : Type 0 where
  do_get do_dereg : ℤ → Call
  do_reg : ℤ → ℕ → Call

pub step : Call → Registry → Registry
step (do_get id) s = (get id s).1
step (do_reg id fun) s = (reg id fun s).1
step (do_dereg id) s = dereg id s

pub run : List Call → Registry → Registry
run [] s = s
run (c ∷ cs) s = run cs (step c s)

-- How often a message was logged for an id.
pub logged : ℕ → List ℤ → ℕ
logged id [] = 0
logged id (negsuc n ∷ log) = logged id log
logged id (pos i ∷ log) = let rest = logged id log in if i == id then suc rest else rest

-- One message for an id that was warned of, none for another.
abbrev pub IsLogged : Registry → Type 0
IsLogged s = (id : ℕ) → id < max_ids → logged id s.log ≡ (if s.warned id then 1 else 0)

step-IsLogged : (c : Call) (s : Registry) → IsLogged s → IsLogged (step c s)
unfolding step get get_at reg dereg warn logged
step-IsLogged (do_get (pos i)) s v id h = ground (arith, v id h)
step-IsLogged (do_get (negsuc n)) s v id h = ground (arith, v id h)
step-IsLogged (do_reg (pos i) fun) s v id h = ground (arith, v id h)
step-IsLogged (do_reg (negsuc n) fun) s v id h = v id h
step-IsLogged (do_dereg (pos i)) s v id h = ground (arith, v id h)
step-IsLogged (do_dereg (negsuc n)) s v id h = v id h

run-IsLogged : (cs : List Call) (s : Registry) → IsLogged s → IsLogged (run cs s)
unfolding run
run-IsLogged [] s v = v
run-IsLogged (c ∷ cs) s v = run-IsLogged cs (step c s) (step-IsLogged c s v)

-- Whatever is called, in any order, at most one message is logged for each id of the table.
pub run-logged :
    (cs : List Call) (id : ℕ) → id < max_ids → logged id (run cs empty_registry).log ≤ 1
unfolding logged
run-logged cs id h = ground (arith, run-IsLogged cs empty_registry (λ i g. refl) id h)
