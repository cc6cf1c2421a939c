-- ===== src/BcmFun/Policy.antt =====
-- What a lookup in wl_compat.c's hook registry gives.
use cudy_wr3600_openwrt.Prelude.{
  arith, Bool, Errno, Option, false, if◌then◌else◌, ltb, negsuc, none, not, pos, some, true, ℕ, ℤ,
  ◌&&◌, ◌==◌, ◌≡◌, ◌⊎◌,
}
use cudy_wr3600_openwrt.BcmFun.{
  Hook, provider, Registry, max_ids, archer_bind, archer_rx_register, spdsvc_transmit,
  spdsvc_receive, reg, dereg, call_own,
}

-- The abstract registry: what is registered under each id of the range.
abbrev pub registered : ℤ → Registry → Option ℕ
registered (negsuc n) s = none
registered (pos id) s = if ltb id max_ids && not (s.tab id == 0) then some (s.tab id) else none

abbrev pub same_id : ℤ → ℤ → Bool
same_id (pos a) (pos b) = a == b
same_id (negsuc a) (negsuc b) = a == b
same_id _ _ = false

abbrev pub accepted : Option Errno → Bool
accepted none = true
accepted (some e) = false

-- A registration that is accepted is what lookups of that id see from then on, a refused one changes
-- nothing, a deregistration empties the id, and neither touches any other id.
pub registered-reg :
    (id other : ℤ) (fun : ℕ) (s : Registry)
    → (registered other (reg id fun s).1
        ≡ (if same_id id other && accepted (reg id fun s).0 then some fun else registered other s))
      × (registered other (dereg id s) ≡ (if same_id id other then none else registered other s))
unfolding reg dereg
registered-reg (negsuc n) other fun s = ground arith
registered-reg (pos id) (negsuc m) fun s = ground arith
registered-reg (pos id) (pos other) fun s = ground arith

-- What a lookup may give for what is registered.
abbrev pub Lookup : ℤ → Option ℕ → Option Hook → Type 0
Lookup id (some fun) hook = hook ≡ some (provider fun)
Lookup id none none = (id ≡ pos spdsvc_transmit) ⊎ (id ≡ pos spdsvc_receive)
Lookup id none (some hook) =
    (same_id id (pos spdsvc_transmit) ≡ false)
    × (same_id id (pos spdsvc_receive) ≡ false)
    × ((radio_idx : ℤ)
        → call_own hook (some radio_idx)
          ≡ some (
              if same_id id (pos archer_bind)
              then radio_idx
              else if same_id id (pos archer_rx_register)
              then negsuc 18
              else pos 0))
