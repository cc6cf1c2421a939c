-- ===== src/Nvram.antt =====
-- The kernel NVRAM backend of bsp-6.6/compat/shim_nvram.c: a list of name and value strings behind
-- the three symbols that hnd.ko imports, seeded at module load.
pub mod Store
pub mod Valid
pub mod Misses
pub mod Getall
pub mod Init
use mathlib.Core.Option
use cudy_wr3600_openwrt.Prelude.{
  Result, enospc, err, length, negsuc, ok, pos, take, ℤ, ℕ, ◌+◌, ◌-◌, ◌^◌, ◌%◌, Bool, true, false,
  ◌&&◌, ◌||◌, not, Option, none, some, List, [], ◌∷◌, ◌++◌, CString, str_eq, Memory, request,
  granted, free_one, free_if, leb, ltb, ◌==◌, if◌then◌else◌,
}

-- `struct shim_nvram_entry`, without its list links.
pub record Entry : Type 0 where
  pub name : CString
  pub value : CString

-- What `wlcsm_nvram_k_get` prints of a miss.
pub data Message : Type 0 where
  miss : ℕ → CString → Message
  capped : Message

-- The file's static state; `cap_warned` is the flag behind `shim_warn_once`.
pub record Nvram : Type 0 where
  pub entries : List Entry
  pub mem : Memory
  pub misses : ℕ
  pub log : List Message
  pub cap_warned : Bool

abbrev pub miss_log_n : ℕ
miss_log_n = 32

unfoldable pub find_locked : CString → List Entry → Option Entry
find_locked name [] = none
find_locked name (e ∷ es) = if str_eq e.name name then some e else find_locked name es

-- `n <= limit` of an `int` whose bit pattern is `n`.
abbrev pub int_leb : ℕ → ℕ → Bool
int_leb n limit = leb (2 ^ 31) n || leb n limit

-- `atomic_inc_return` wraps as an `int` does.
pub note_miss : CString → Nvram → Nvram
note_miss name s =
    let n = (s.misses + 1) % 2 ^ 32 in
    let t = record s { misses = n } in
    if int_leb n miss_log_n
    then record t { log = s.log ++ (miss n name ∷ []) }
    else if n == miss_log_n + 1 && not s.cap_warned
    then record t { log = s.log ++ (capped ∷ []); cap_warned = true }
    else t

-- A pointer into the store is modelled by the string that it points to.
pub k_get : Option CString → Nvram → Option CString × Nvram
k_get none s = (none, s)
k_get (some name) s = elim (find_locked name s.entries) [
  | some e ↦ (some e.value, s)
  | none ↦ (none, note_miss name s)
]

pub replace_value : CString → CString → List Entry → List Entry
replace_value name value [] = []
replace_value name value (e ∷ es) =
    if str_eq e.name name then record e { value = value } ∷ es else e ∷ replace_value name value es

-- The part of `shim_nvram_k_set_worker` under the lock, with both strings duplicated.
pub set_locked : CString → CString → Nvram → ℕ × Nvram
set_locked name value s = elim (find_locked name s.entries) [
  | some e ↦ (
    0,
    record s { entries = replace_value name value s.entries; mem = free_one (free_one s.mem) },
  )
  | none ↦
      (if granted s.mem
        then (
          0,
          record s {
            entries = s.entries ++ (record { name = name; value = value } ∷ []);
            mem = request s.mem;
          },
        )
        else (1, record s { mem = free_one (free_one (request s.mem)) }))
]

abbrev pub or_empty : Option CString → CString
or_empty none = []
or_empty (some value) = value

-- `shim_nvram_k_set_worker`, and `wlcsm_nvram_k_set`, which only calls it: 0, or 1 on error.
pub k_set_worker : Option CString → Option CString → Nvram → ℕ × Nvram
k_set_worker none value s = (1, s)
k_set_worker (some []) value s = (1, s)
k_set_worker (some (c ∷ name)) value s =
    let named = granted s.mem in
    let m1 = request s.mem in
    let valued = granted m1 in
    let m2 = request m1 in
    if named && valued
    then set_locked (c ∷ name) (or_empty value) (record s { mem = m2 })
    else (1, record s { mem = free_if valued (free_if named m2) })

abbrev pub equals : ℕ
equals = 0x3d

abbrev pub nul : ℕ
nul = 0

-- `"%s=%s"`
abbrev pub print_pair : Entry → CString
print_pair e = e.name ++ (equals ∷ e.value)

-- What `scnprintf(p, size, "%s", text)` writes before its NUL: at most `size - 1` bytes.
abbrev pub scnprintf : ℕ → CString → CString
scnprintf size text = take (size - 1) text

-- The loop of `wlcsm_nvram_getall`: `out` holds the `len` bytes that are written so far. A pair that
-- does not fit ends the loop.
getall_loop : ℕ → List Entry → List ℕ → List ℕ
getall_loop count [] out = out
getall_loop count (e ∷ es) out =
    let len = length out in
    let nlen = length e.name + 1 + length e.value + 1 in
    let rest =
      getall_loop count es (out ++ (scnprintf (count - len) (print_pair e) ++ (nul ∷ []))) in
    if ltb count (len + nlen + 1) then out else rest

-- `wlcsm_nvram_getall` into a buffer of `count` bytes: the bytes that it writes, whose number it
-- returns.
pub getall : Bool → ℤ → Nvram → Result (List ℕ)
unfolding getall_loop
getall false count s = err enospc
getall true (negsuc n) s = err enospc
getall true (pos count) s =
    if ltb count 2 then err enospc else ok (getall_loop count s.entries [] ++ (nul ∷ []))
