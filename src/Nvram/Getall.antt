-- ===== src/Nvram/Getall.antt =====
-- `wlcsm_nvram_getall` of shim_nvram.c against a reader of its byte stream.
use cudy_wr3600_openwrt.Prelude.{
  ok, pos, ◌≤◌, false, take_all, true, ◌∙◌, append-nil, append_assoc, All, Bool-cases, CString,
  List, [], arith, if◌then◌else◌, inl, inr, length, length-append, ltb, refl, ℕ, ◌++◌, ◌+◌, ◌-◌,
  ◌<◌, ◌==◌, ◌∷◌, ◌≡◌, ◌≢◌,
}
use cudy_wr3600_openwrt.Nvram.{
  Entry, Nvram, getall_loop, getall, print_pair, scnprintf, equals, nul,
}

-- A reader of "name=value\0" records, up to an empty name.
pub data Mode : Type 0 where
  in_name : CString → Mode
  in_value : CString → CString → Mode

pub read_pairs : Mode → List ℕ → List Entry
read_pairs m [] = []
read_pairs (in_name acc) (c ∷ cs) =
    let ended : List Entry = [] in
    let next = read_pairs (if c == equals then in_value acc [] else in_name (acc ++ (c ∷ []))) cs in
    if c == nul then ended else next
read_pairs (in_value name acc) (c ∷ cs) =
    let next = read_pairs (in_name []) cs in
    let more = read_pairs (in_value name (acc ++ (c ∷ []))) cs in
    if c == nul then record { name = name; value = acc } ∷ next else more

-- A name that can be told from its value in the stream, and a value that is a C string.
pub record IsPrintable (e : Entry) : Type 0 where
  pub name_lem : All (λ c. (0 < c) × (c ≢ equals)) e.name
  pub value_lem : All (λ c. 0 < c) e.value

read-name :
    (name acc rest : List ℕ)
    → All (λ c. (0 < c) × (c ≢ equals)) name
    → read_pairs (in_name acc) (name ++ (equals ∷ rest))
      ≡ read_pairs (in_value (acc ++ name) []) rest
unfolding read_pairs
read-name [] acc rest h = rw append-nil
read-name (c ∷ cs) acc rest h =
    ground (arith, read-name cs (acc ++ (c ∷ [])) rest h.1, append_assoc acc (c ∷ []) cs, h.0)

read-value :
    (name value acc rest : List ℕ)
    → All (λ c. 0 < c) value
    → read_pairs (in_value name acc) (value ++ (nul ∷ rest))
      ≡ record { name = name; value = acc ++ value } ∷ read_pairs (in_name []) rest
unfolding read_pairs
read-value name [] acc rest h = rw append-nil
read-value name (c ∷ cs) acc rest h =
    ground (arith, read-value name cs (acc ++ (c ∷ [])) rest h.1, append_assoc acc (c ∷ []) cs, h.0)

pub encode : List Entry → List ℕ
encode [] = []
encode (e ∷ es) = print_pair e ++ (nul ∷ encode es)

abbrev pub size : Entry → ℕ
size e = length e.name + 1 + length e.value + 1

-- The longest run of entries from the front whose records leave one byte of `room`.
pub fitting : ℕ → List Entry → List Entry
fitting room [] = []
fitting room (e ∷ es) =
    let rest = fitting (room - size e) es in if ltb room (size e + 1) then [] else e ∷ rest

unfoldable pub total : List Entry → ℕ
total [] = 0
total (e ∷ es) = size e + total es

pub fitting_all : (room : ℕ) (es : List Entry) → total es < room → fitting room es ≡ es
unfolding fitting total
fitting_all room [] h = refl
fitting_all room (e ∷ es) h = ground (arith, fitting_all (room - size e) es)

read-encode :
    (es : List Entry) → All IsPrintable es → read_pairs (in_name []) (encode es ++ (nul ∷ [])) ≡ es
unfolding encode read_pairs
read-encode [] h = refl
read-encode (e ∷ es) h =
    rw
      (
        append_assoc (print_pair e) (nul ∷ encode es) (nul ∷ []),
        append_assoc e.name (equals ∷ e.value) (nul ∷ (encode es ++ (nul ∷ []))),
        read-name e.name [] _ h.0.name_lem,
      )
      (rw (read-value e.name e.value [] _ h.0.value_lem, read-encode es h.1))

All-fitting : (P : Entry → Type 0) (room : ℕ) (es : List Entry) → All P es → All P (fitting room es)
unfolding fitting
All-fitting P room [] h = tt
All-fitting P room (e ∷ es) h = elim (Bool-cases (ltb room (size e + 1))) [
  | inl full ↦ rw full tt
  | inr fits ↦ rw fits (h.0, All-fitting P (room - size e) es h.1)
]

length-print_pair : (e : Entry) → length (print_pair e) + 1 ≡ size e
length-print_pair e = rw length-append (omega arith)

-- One record written: the buffer text is the whole pair and its NUL.
record_written :
    (count len : ℕ) (e : Entry)
    → ltb count (len + size e + 1) ≡ false
    → scnprintf (count - len) (print_pair e) ≡ print_pair e
record_written count len e h =
    take_all (count - len - 1) (print_pair e) (ground (arith, length-print_pair e))

length-record :
    (out : List ℕ) (e : Entry) → length (out ++ (print_pair e ++ nul ∷ [])) ≡ length out + size e
length-record out e =
    rw (length-append out (print_pair e ++ nul ∷ []), length-append (print_pair e) (nul ∷ []))
      (omega (arith, length-print_pair e))

getall_loop_lem :
    (count : ℕ) (es : List Entry) (out : List ℕ)
    → length out < count
    → getall_loop count es out ≡ out ++ encode (fitting (count - length out) es)
unfolding getall_loop fitting encode
getall_loop_lem count [] out h = rw append-nil
getall_loop_lem count (e ∷ es) out h = elim (Bool-cases (ltb count (length out + size e + 1))) [
  | inl full ↦
      let room : ltb (count - length out) (size e + 1) ≡ true = ground arith in
      rw (full, room, append-nil)
  | inr fits ↦
      let room : ltb (count - length out) (size e + 1) ≡ false = ground arith in
      let next =
        getall_loop_lem count es (out ++ (print_pair e ++ nul ∷ []))
          (ground (arith, length-record out e)) in
      let left : count - length (out ++ (print_pair e ++ nul ∷ [])) ≡ count - length out - size e =
        omega (arith, length-record out e) in
      rw (fits, room, record_written count (length out) e fits)
        (next ∙ rw (left, append_assoc out, append_assoc (print_pair e)))
]

length-encode-fitting :
    (room : ℕ) (es : List Entry) → 0 < room → length (encode (fitting room es)) < room
unfolding encode fitting
length-encode-fitting room [] h = h
length-encode-fitting room (e ∷ es) h = elim (Bool-cases (ltb room (size e + 1))) [
  | inl full ↦ rw full h
  | inr fits ↦
      let rest = length-encode-fitting (room - size e) es (ground arith) in
      rw (fits, length-append (print_pair e)) (ground (arith, length-print_pair e, rest))
]

-- `getall` fills the buffer with the records of the entries from the front, as many as leave room
-- for the final NUL: it never writes past `count` bytes, it always writes something, and reading the
-- stream back gives exactly those entries.
pub getall_roundtrip :
    (count : ℕ) (s : Nvram)
    → 2 ≤ count
    → All IsPrintable s.entries
    → (bytes : List ℕ) × (getall true (pos count) s ≡ ok bytes)
      × (0 < length bytes)
      × (length bytes ≤ count)
      × (read_pairs (in_name []) bytes ≡ fitting count s.entries)
unfolding getall
getall_roundtrip count s h p =
    let kept = fitting count s.entries in
    let same = getall_loop_lem count s.entries [] (omega arith) in
    let read = read-encode kept (All-fitting _ count s.entries p) in
    (
      encode kept ++ (nul ∷ []),
      ground (arith, same),
      rw (length-append (encode kept) (nul ∷ [])) (omega arith),
      rw (length-append (encode kept) (nul ∷ []))
          (omega (arith, length-encode-fitting count s.entries (omega arith))),
      read,
    )

-- A buffer that is larger than the records gives every entry back.
pub getall_whole :
    (count : ℕ) (s : Nvram)
    → 2 ≤ count
    → All IsPrintable s.entries
    → total s.entries < count
    → (bytes : List ℕ) × (getall true (pos count) s ≡ ok bytes)
      × (read_pairs (in_name []) bytes ≡ s.entries)
getall_whole count s h p fits =
    let (bytes, result, some_bytes, few, read) = getall_roundtrip count s h p in
    (bytes, result, read ∙ fitting_all count s.entries fits)
