-- ===== src/Tests/D3lutRuns.antt =====
-- The dictionary of wl_compat.c with one and two elements.
use cudy_wr3600_openwrt.Prelude.{str_eq, List, Memory, [], arith, refl, some, true, ℕ, ◌∷◌, ◌≡◌}
use cudy_wr3600_openwrt.D3lut.{Table, empty_table, ins, del, key_of}
use cudy_wr3600_openwrt.D3lut.Keys.{key_of_collides}
use cudy_wr3600_openwrt.D3lut.Valid.{IsValid}
use cudy_wr3600_openwrt.D3lut.Lookup.{Inserted, ins-bucket}
use cudy_wr3600_openwrt.D3lut.Lookup.{del-bucket, bucket, tail_of}
use cudy_wr3600_openwrt.D3lut.Reach.{here, next, do_ins, do_del, reachable-IsValid}

abbrev plenty : Memory
plenty = record { grants = λ n. true; asked = 0; live = 0 }

abbrev phone : List ℕ
phone = 2 ∷ 0 ∷ 0 ∷ 0 ∷ 0 ∷ 7 ∷ []

abbrev start : Table
start = empty_table plenty

abbrev one_elem : Table
one_elem = (ins (some phone) 1 0 start).1

reachable-IsValid_example : IsValid (del (some phone) 1 one_elem)
reachable-IsValid_example =
    reachable-IsValid plenty refl
      (next (next here (do_ins (some phone) 1 0)) (do_del (some phone) 1))

ins-bucket_example : Inserted phone 1 start 1 phone (ins (some phone) 1 0 start)
ins-bucket_example = ins-bucket phone 1 0 start 1 phone

del-bucket_example :
    bucket 1 phone (del (some phone) 1 one_elem) ≡ tail_of (bucket 1 phone one_elem)
unfolding str_eq
del-bucket_example = del-bucket phone 1 one_elem 1 phone

key_of_collides_example : key_of 0 100 6 ≡ key_of 3 100 0
key_of_collides_example = key_of_collides 6 100 (omega arith)
