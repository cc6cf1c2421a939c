-- ===== src/BcmFun.antt =====
-- The bcmFun callback registry of bsp-6.6/compat/wl_compat.c: numbered hooks that one blob registers
-- and another looks up, and what a lookup gives for a hook that nobody registered.
pub mod Policy
pub mod Warnings
use cudy_wr3600_openwrt.Prelude.{
  update, Bool, Errno, List, Option, [], einval, false, if◌then◌else◌, ltb, negsuc, none, not, pos,
  some, true, ℕ, ℤ, ◌&&◌, ◌==◌, ◌||◌, ◌∷◌,
}

abbrev pub max_ids : ℕ
max_ids = 128

abbrev pub spdsvc_transmit : ℕ
spdsvc_transmit = 24

abbrev pub spdsvc_receive : ℕ
spdsvc_receive = 25

abbrev pub archer_rx_register : ℕ
archer_rx_register = 35

abbrev pub archer_bind : ℕ
archer_bind = 37

-- A function pointer that a lookup returns: a registered one by its address, or one of this file.
pub data Hook : Type 0 where
  provider : ℕ → Hook
  stub absent35 echo37 : Hook

-- `wl_bcmfun_tab` with 0 for NULL, `wl_bcmfun_warned`, and the ids that a message was logged for,
-- newest first; `once` is the state of `pr_warn_once`.
pub record Registry : Type 0 where
  pub tab : ℕ → ℕ
  pub warned : ℕ → Bool
  pub once : Bool
  pub log : List ℤ

abbrev pub empty_registry : Registry
empty_registry = record { tab = λ i. 0; warned = λ i. false; once = false; log = [] }

-- `wl_bcmfun_absent_ok`
pub absent_ok : ℕ → Bool
absent_ok id = id == spdsvc_transmit || id == spdsvc_receive

-- `test_and_set_bit` with the message behind it.
pub warn : ℕ → Registry → Registry
warn id s =
    if s.warned id then s else record s { warned = update s.warned id true; log = pos id ∷ s.log }

-- What stands in for a hook of number `id` that is not registered; `none` is NULL.
pub fallback : ℕ → Option Hook
fallback id =
    if absent_ok id
    then none
    else if id == archer_bind
    then some echo37
    else if id == archer_rx_register
    then some absent35
    else some stub

abbrev pub out_of_range : ℤ → Registry → Registry
out_of_range id s = if s.once then s else record s { once = true; log = id ∷ s.log }

-- `bcmFun_get` for an id that is not negative.
pub get_at : ℕ → Registry → Option Hook × Registry
get_at id s =
    if ltb id max_ids && not (s.tab id == 0)
    then (some (provider (s.tab id)), s)
    else if ltb id max_ids
    then (fallback id, warn id s)
    else (some stub, out_of_range (pos id) s)

-- `bcmFun_get`
pub get : ℤ → Registry → Option Hook × Registry
get (pos id) s = get_at id s
get (negsuc n) s = (some stub, out_of_range (negsuc n) s)

-- `bcmFun_reg`; `none` is 0.
pub reg : ℤ → ℕ → Registry → Option Errno × Registry
reg (negsuc n) fun s = (some einval, s)
reg (pos id) fun s =
    if not (ltb id max_ids) || fun == 0
    then (some einval, s)
    else (none, record s { tab = update s.tab id fun })

-- `bcmFun_dereg`
pub dereg : ℤ → Registry → Registry
dereg (negsuc n) s = s
dereg (pos id) s = if ltb id max_ids then record s { tab = update s.tab id 0 } else s

-- What a call of a hook of this file returns, for the `wl_radio_idx` of the argument; `none` is a
-- NULL argument. A registered hook is not of this file.
pub call_own : Hook → Option ℤ → Option ℤ
call_own (provider fun) arg = none
call_own stub arg = some (pos 0)
call_own absent35 arg = some (negsuc 18)
call_own echo37 none = some (pos 0)
call_own echo37 (some radio_idx) = some radio_idx
