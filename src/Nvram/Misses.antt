-- ===== src/Nvram/Misses.antt =====
-- The miss instrument of shim_nvram.c's `wlcsm_nvram_k_get`: what a run of lookups logs.
use cudy_wr3600_openwrt.Prelude.{
  refl, ◌∙◌, CString, List, [], arith, false, length, length-append, some, true, ◌+◌, ◌<◌, ◌^◌, ◌∷◌,
  ◌≡◌, ◌≤◌,
}
use cudy_wr3600_openwrt.Nvram.{Nvram, miss, capped, note_miss, k_get, miss_log_n}

-- A run of lookups, in order.
pub k_gets : List CString → Nvram → Nvram
k_gets [] s = s
k_gets (name ∷ names) s = k_gets names (k_get (some name) s).1

-- What the log may hold while fewer than 2 ^ 31 misses have been counted.
pub record IsCapped (s : Nvram) : Type 0 where
  pub early : s.misses ≤ miss_log_n → length s.log ≡ s.misses
  pub late : miss_log_n < s.misses → length s.log ≤ miss_log_n + 1
  pub unwarned : s.misses ≤ miss_log_n → s.cap_warned ≡ false
  pub reported : miss_log_n < s.misses → s.cap_warned ≡ true

k_get-IsCapped :
    (name : CString) (s : Nvram)
    → s.misses + 1 < 2 ^ 31
    → IsCapped s
    → IsCapped (k_get (some name) s).1
      × ((k_get (some name) s).1.misses ≤ s.misses + 1)
      × ((k_get (some name) s).1.entries ≡ s.entries)
unfolding k_get note_miss
k_get-IsCapped name s h v =
    ground (
      arith,
      length-append s.log (miss (s.misses + 1) name ∷ []),
      length-append s.log (capped ∷ []),
    )

-- However many lookups are made, short of 2 ^ 31 misses, the first 32 misses are logged one by one,
-- one line says that the limit is reached, no more is logged, and no entry changes.
pub k_gets-IsCapped :
    (names : List CString) (s : Nvram)
    → s.misses + length names < 2 ^ 31
    → IsCapped s
    → IsCapped (k_gets names s) × ((k_gets names s).entries ≡ s.entries)
unfolding k_gets
k_gets-IsCapped [] s h v = (v, refl)
k_gets-IsCapped (name ∷ names) s h v =
    let (v', less, same) = k_get-IsCapped name s (omega arith) v in
    let (w, kept) = k_gets-IsCapped names (k_get (some name) s).1 (omega arith) v' in
    (w, kept ∙ same)
