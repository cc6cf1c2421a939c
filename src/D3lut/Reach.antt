-- ===== src/D3lut/Reach.antt =====
-- Any sequence of calls into wl_compat.c's dictionary, with wl.ko's writes to its elements between
-- them.
use cudy_wr3600_openwrt.Prelude.{
  All, Bool, List, Memory, Option, [], ap, arith, if◌then◌else◌, length, map, refl, suc, sum_of,
  sym, ℕ, ◌==◌, ◌∷◌, ◌≡◌,
}
use cudy_wr3600_openwrt.D3lut.{Elem, Pool, Table, empty_table, ins, del, clr, policy_set}
use cudy_wr3600_openwrt.D3lut.Valid.{
  IsPool, IsValid, stored, empty_table-IsValid, ins-IsValid, del-IsValid, policy_set-IsValid,
}
use cudy_wr3600_openwrt.D3lut.Clear.{clr_lem}

-- wl.ko sets the interface and device words of an element that `ins` returned.
abbrev pub poke_elem : ℕ → ℕ → ℕ → Elem → Elem
poke_elem addr handle device e =
    if e.addr == addr then record e { if_handle = handle; virt_net_device = device } else e

abbrev pub poke_pool : ℕ → ℕ → ℕ → Pool → Pool
poke_pool addr handle device p = record p { elems = map (poke_elem addr handle device) p.elems }

pub data Step (t : Table) : Table → Type 0 where
  do_ins : (sym : Option (List ℕ)) (pool policy : ℕ) → Step t (ins sym pool policy t).1
  do_del : (sym : Option (List ℕ)) (pool : ℕ) → Step t (del sym pool t)
  do_clr : (ext : ℕ) (ignore : Bool) → Step t (clr ext ignore t)
  do_policy : (pool policy : ℕ) → Step t (policy_set pool policy t)
  do_poke :
      (addr handle device : ℕ)
      → Step t (record t { pools = map (poke_pool addr handle device) t.pools })

pub data Reach (s : Table) : Table → Type 0 where
  here : Reach s s
  next : {t u : Table} → Reach s t → Step t u → Reach s u

length-map {ℓ κ} :
    {A : Type ℓ} {B : Type κ} (f : A → B) (xs : List A) → length (map f xs) ≡ length xs
length-map f [] = refl
length-map f (x ∷ xs) = ap suc (length-map f xs)

map-poke_pool :
    (addr handle device : ℕ) (ps : List Pool)
    → All IsPool ps
    → All IsPool (map (poke_pool addr handle device) ps)
      × (sum_of stored (map (poke_pool addr handle device) ps) ≡ sum_of stored ps)
map-poke_pool addr handle device [] v = (tt, refl)
map-poke_pool addr handle device (p ∷ ps) v =
    let same = length-map (poke_elem addr handle device) p.elems in
    let (rest, total) = map-poke_pool addr handle device ps v.1 in
    (
      (
        record {
          counted = omega (arith, same, v.0.counted);
          bounded = omega (arith, same, v.0.bounded);
          index = v.0.index;
          incarnation = v.0.incarnation;
        },
        rest,
      ),
      omega (arith, same, total),
    )

Step-IsValid : {t u : Table} → Step t u → IsValid t → IsValid u
Step-IsValid {t} (do_ins sym pool policy) v = ins-IsValid sym pool policy t v
Step-IsValid {t} (do_del sym pool) v = del-IsValid sym pool t v
Step-IsValid {t} (do_clr ext ignore) v = (clr_lem ext ignore t v).0
Step-IsValid {t} (do_policy pool policy) v = policy_set-IsValid pool policy t v
Step-IsValid {t} (do_poke addr handle device) v =
    let (pools, total) = map-poke_pool addr handle device t.pools v.pools in
    record {
      five = rw length-map v.five;
      pools = pools;
      accounted = omega (arith, total, v.accounted);
    }

Reach-IsValid : {s t : Table} → IsValid s → Reach s t → IsValid t
Reach-IsValid v here = v
Reach-IsValid v (next r st) = Step-IsValid st (Reach-IsValid v r)

-- Whatever is called, and whatever wl.ko writes into its elements, in any order: starting from the
-- zeroed table each pool's count is its length and at most 512, its next index stays below 512, and
-- every element that was taken from the allocator is linked in a pool or was freed once.
pub reachable-IsValid :
    (mem : Memory) {t : Table} → mem.live ≡ 0 → Reach (empty_table mem) t → IsValid t
reachable-IsValid mem h r = Reach-IsValid (empty_table-IsValid mem h) r
