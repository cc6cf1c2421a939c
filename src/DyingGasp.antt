-- ===== src/DyingGasp.antt =====
-- The dying-gasp handler table of bsp-6.6/compat/wl_compat.c.
pub mod Table
pub mod Names
use cudy_wr3600_openwrt.Prelude.{
  Bool, CString, List, Option, [], false, if◌then◌else◌, map, none, some, str_eq, take, true, ℕ,
  ◌&&◌, ◌-◌, ◌==◌, ◌∷◌,
}

pub record Handler : Type 0 where
  pub name : CString
  pub cbfn : ℕ
  pub ctx : ℕ
  pub used : Bool

abbrev pub dgasp_max : ℕ
dgasp_max = 16

-- `sizeof(name)`
abbrev pub name_size : ℕ
name_size = 16

-- The loop that takes the first slot that is not used; `none` is a full table.
pub place : Handler → List Handler → Option (List Handler)
place h [] = none
place h (x ∷ xs) =
    let rest = place h xs in
    let further : Option (List Handler) = elim rest [ none ↦ none | some ys ↦ some (x ∷ ys) ] in
    if x.used then further else some (h ∷ xs)

-- `strscpy` into the name: what fits before the NUL.
abbrev pub short_name : CString → CString
short_name devname = take (name_size - 1) devname

-- `kerSysRegisterDyingGaspHandler`: whether it was registered, and the table. 0 is a NULL `cbfn`.
pub register : Option CString → ℕ → ℕ → List Handler → Bool × List Handler
register none cbfn ctx tab = (false, tab)
register (some devname) cbfn ctx tab =
    let h : Handler = record { name = short_name devname; cbfn = cbfn; ctx = ctx; used = true } in
    if cbfn == 0
    then (false, tab)
    else elim (place h tab) [ none ↦ (false, tab) | some tab' ↦ (true, tab') ]

-- `strncmp(name, devname, sizeof(name)) == 0`
abbrev pub same_name : CString → CString → Bool
same_name name devname = str_eq (take name_size name) (take name_size devname)

-- The loop of `kerSysDeregisterDyingGaspHandler`: the first used slot of that name.
pub remove : CString → List Handler → List Handler
remove devname [] = []
remove devname (x ∷ xs) =
    let rest = remove devname xs in
    if x.used && same_name x.name devname
    then record x { used = false; cbfn = 0; ctx = 0 } ∷ xs
    else x ∷ rest

-- `kerSysDeregisterDyingGaspHandler`
pub deregister : Option CString → List Handler → List Handler
deregister none tab = tab
deregister (some devname) tab = remove devname tab
