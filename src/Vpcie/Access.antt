-- ===== src/Vpcie/Access.antt =====
-- Reads of vpcie66.c's configuration space after writes.
use cudy_wr3600_openwrt.Prelude.{
  ap, ltb, sym, ◌-◌, pos, true, ◌*◌, arith, refl, suc, update, zero, ℕ, ◌%◌, ◌+◌, ◌/◌, ◌<◌, ◌^◌,
  ◌∙◌, ◌≡◌, ◌≤◌, ◌⊎◌,
}
use cudy_wr3600_openwrt.Vpcie.{
  Vdev, successful, store_bytes, load_bytes, access_valid, size_mask, read_word, cfg_read,
  cfg_write, cfg_size, ones, bar_first,
}

pub store_bytes-outside :
    (n at v i : ℕ) (mem : ℕ → ℕ) → (i < at) ⊎ (at + n ≤ i) → store_bytes n at v mem i ≡ mem i
unfolding store_bytes
store_bytes-outside zero at v i mem h = refl
store_bytes-outside (suc n) at v i mem h =
    store_bytes-outside n (suc at) (v / 256) i (update mem at (v % 256)) (ground (arith, h))
    ∙ ground (arith, h)

pub load_bytes-outside :
    (m b n at v : ℕ) (mem : ℕ → ℕ)
    → (b + m ≤ at) ⊎ (at + n ≤ b)
    → load_bytes m b (store_bytes n at v mem) ≡ load_bytes m b mem
unfolding load_bytes
load_bytes-outside zero b n at v mem h = refl
load_bytes-outside (suc m) b n at v mem h = omega (
  arith,
  store_bytes-outside n at v b mem (ground (arith, h)),
  load_bytes-outside m (suc b) n at v mem (ground (arith, h)),
)

-- The widths of an access.
pub data Width : Type 0 where
  byte half word : Width

abbrev pub bytes : Width → ℕ
bytes byte = 1
bytes half = 2
bytes word = 4

load-store_half : (at v : ℕ) (mem : ℕ → ℕ) → load_bytes 2 at (store_bytes 2 at v mem) ≡ v % 2 ^ 16
unfolding load_bytes store_bytes
load-store_half at v mem = ground arith

pub load-store_word :
    (at v : ℕ) (mem : ℕ → ℕ) → load_bytes 4 at (store_bytes 4 at v mem) ≡ v % 2 ^ 32
unfolding load_bytes store_bytes
load-store_word at v mem = ground arith

-- What a read of the same width finds after a write of `v`.
abbrev pub expected : Vdev → Width → ℕ → ℕ → ℕ
expected vh byte at v = v % 2 ^ 8
expected vh half at v = v % 2 ^ 16
expected vh word at v = read_word vh at (v % 2 ^ 32)

-- What an aligned read finds, where `old` was in the caller's variable.
abbrev pub found : Vdev → Width → ℕ → ℕ → ℕ
found vh byte at old = vh.cfg at
found vh half at old = old / 2 ^ 16 * 2 ^ 16 + load_bytes 2 at vh.cfg
found vh word at old = read_word vh at (load_bytes 4 at vh.cfg)

pub cfg_read-granted :
    (vh : Vdev) (number devfn at old : ℕ) (s : Width)
    → access_valid vh number devfn ≡ true
    → at < cfg_size
    → at % bytes s ≡ 0
    → cfg_read vh number devfn (pos at) (bytes s) old ≡ (successful, found vh s at old)
unfolding cfg_read
cfg_read-granted vh number devfn at old byte h lt al = ground (arith, h)
cfg_read-granted vh number devfn at old half h lt al = ground (arith, h)
cfg_read-granted vh number devfn at old word h lt al =
    let same : at / 4 * 4 ≡ at = omega (arith, al) in
    let inside : ltb at cfg_size ≡ true = ground (arith, lt) in rw (h, inside, same) refl

-- The device after an aligned write.
abbrev pub written : Vdev → Width → ℕ → ℕ → Vdev
written vh s at v = record vh { cfg = store_bytes (bytes s) at v vh.cfg }

pub cfg_write-granted :
    (vh : Vdev) (number devfn at v : ℕ) (s : Width)
    → access_valid vh number devfn ≡ true
    → at < cfg_size
    → at % bytes s ≡ 0
    → cfg_write vh number devfn (pos at) (bytes s) v ≡ (successful, written vh s at v)
unfolding cfg_write store_bytes
cfg_write-granted vh number devfn at v byte h lt al = ground (arith, h)
cfg_write-granted vh number devfn at v half h lt al = ground (arith, h)
cfg_write-granted vh number devfn at v word h lt al =
    let same : at / 4 * 4 ≡ at = omega (arith, al) in
    let inside : ltb at cfg_size ≡ true = ground (arith, lt) in rw (h, inside, same) refl

found-written :
    (vh : Vdev) (s : Width) (at v : ℕ) → found (written vh s at v) s at 0 ≡ expected vh s at v
unfolding store_bytes read_word
found-written vh byte at v = ground arith
found-written vh half at v = omega (arith, load-store_half at v vh.cfg)
found-written vh word at v = ap (read_word vh at) (load-store_word at v vh.cfg)

pub cfg_read-cfg_write :
    (vh : Vdev) (number devfn at v : ℕ) (s : Width)
    → access_valid vh number devfn ≡ true
    → at < cfg_size
    → at % bytes s ≡ 0
    → let r = cfg_write vh number devfn (pos at) (bytes s) v in
      (r.0 ≡ successful)
      × (cfg_read r.1 number devfn (pos at) (bytes s) 0 ≡ (successful, expected vh s at v))
cfg_read-cfg_write vh number devfn at v s h lt al =
    let done = cfg_write-granted vh number devfn at v s h lt al in
    rw done (
      refl,
      cfg_read-granted (written vh s at v) number devfn at 0 s h lt al
          ∙ ap (λ x. (successful, x)) (found-written vh s at v),
    )

found-apart :
    (vh : Vdev) (s : Width) (at v : ℕ) (t : Width) (other old : ℕ)
    → (other + bytes t ≤ at) ⊎ (at + bytes s ≤ other)
    → found (written vh s at v) t other old ≡ found vh t other old
unfolding read_word
found-apart vh s at v byte other old h =
    store_bytes-outside (bytes s) at v other vh.cfg (ground (arith, h))
found-apart vh s at v half other old h =
    ap (λ x. old / 2 ^ 16 * 2 ^ 16 + x) (load_bytes-outside 2 other (bytes s) at v vh.cfg h)
found-apart vh s at v word other old h =
    ap (read_word vh other) (load_bytes-outside 4 other (bytes s) at v vh.cfg h)

-- A write leaves what a read elsewhere in the space finds, both of them aligned.
pub cfg_read-elsewhere :
    (vh : Vdev) (number devfn at v : ℕ) (s : Width) (other old : ℕ) (t : Width)
    → access_valid vh number devfn ≡ true
    → (at < cfg_size) × (at % bytes s ≡ 0)
    → (other < cfg_size) × (other % bytes t ≡ 0)
    → (other + bytes t ≤ at) ⊎ (at + bytes s ≤ other)
    → cfg_read
        (cfg_write vh number devfn (pos at) (bytes s) v).1
        number
        devfn
        (pos other)
        (bytes t)
        old
      ≡ cfg_read vh number devfn (pos other) (bytes t) old
cfg_read-elsewhere vh number devfn at v s other old t h (lt, al) (bl, bal) apart =
    rw (cfg_write-granted vh number devfn at v s h lt al) (
      cfg_read-granted (written vh s at v) number devfn other old t h bl bal
      ∙ ap (λ x. (successful, x)) (found-apart vh s at v t other old apart)
      ∙ sym (cfg_read-granted vh number devfn other old t h bl bal))

read_word-size : (vh : Vdev) → read_word vh bar_first ones ≡ size_mask (vh.bar_size 0)
unfolding read_word
read_word-size vh = refl

read_word-base : (vh : Vdev) (base : ℕ) → base < ones → read_word vh bar_first base ≡ base
unfolding read_word
read_word-base vh base lt = ground (arith, lt)

size_mask-decoded :
    (size mask : ℕ)
    → (0 < size) × (size < 2 ^ 32) × (size % 16 ≡ 0)
    → mask ≡ size_mask size
    → 2 ^ 32 - mask / 16 * 16 ≡ size
size_mask-decoded size mask h e = omega (arith, h, e)

-- The PCI core finds the size of the first base address register, a multiple of 16, by a write of all
-- ones, and its own address is back after the write that restores it.
pub sizing :
    (vh : Vdev) (number devfn base : ℕ)
    → access_valid vh number devfn ≡ true
    → (0 < vh.bar_size 0) × (vh.bar_size 0 < 2 ^ 32) × (vh.bar_size 0 % 16 ≡ 0)
    → base < ones
    → let probed = (cfg_write vh number devfn (pos bar_first) 4 ones).1 in
      let mask = (cfg_read probed number devfn (pos bar_first) 4 0).1 in
      (2 ^ 32 - mask / 16 * 16 ≡ vh.bar_size 0)
      × (cfg_read
            (cfg_write probed number devfn (pos bar_first) 4 base).1
            number
            devfn
            (pos bar_first)
            4
            0
          ≡ (successful, base))
sizing vh number devfn base h size lt =
    let probed = written vh word bar_first ones in
    let answer = cfg_read-granted probed number devfn bar_first 0 word h (omega arith) refl in
    let held : found probed word bar_first 0 ≡ size_mask (vh.bar_size 0) =
      found-written vh word bar_first ones ∙ read_word-size vh in
    let back =
      (cfg_read-cfg_write probed number devfn bar_first base word h (omega arith) refl).1 in
    let below : base % 2 ^ 32 ≡ base = omega (arith, lt) in
    rw (cfg_write-granted vh number devfn bar_first ones word h (omega arith) refl) (
      size_mask-decoded (vh.bar_size 0) (cfg_read probed number devfn (pos bar_first) 4 0).1 size
          (ap (λ r. r.1) answer ∙ held),
      back
          ∙ ap (λ x. (successful, x))
              (ap (read_word probed bar_first) below ∙ read_word-base probed base lt),
    )
