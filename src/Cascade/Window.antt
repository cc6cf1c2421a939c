-- ===== src/Cascade/Window.antt =====
-- The window to the on-chip RAM of the PHY, as cascade6764.c uses it: "point the RAM window at 0, open
-- it for auto-incrementing writes (ctrl 0x0038)", with each word "high half first".
use cudy_wr3600_openwrt.Prelude.{
  true, ap, false, ◌*◌, ◌+◌, Bool, Errno, List, Option, [], append_assoc, arith, if◌then◌else◌,
  none, refl, some, ℕ, ◌%◌, ◌&&◌, ◌++◌, ◌/◌, ◌<◌, ◌==◌, ◌^◌, ◌∙◌, ◌∷◌, ◌≡◌,
}
use cudy_wr3600_openwrt.Cascade.{Write}
use cudy_wr3600_openwrt.Cascade.Firmware.{
  lr_ctrl, lr_data_low, lr_data_high, lr_addr_low, lr_addr_high, le32,
}

abbrev pub is_write : ℕ → Write → Bool
is_write reg w = (w.dev == 0x01) && (w.reg == reg)

-- The bytes of a word that was written in two halves.
abbrev pub bytes_of : ℕ → ℕ → List ℕ
bytes_of high low = low % 256 ∷ low / 256 ∷ high % 256 ∷ high / 256 ∷ []

-- The window to the on-chip RAM: whether it is open for a stream of words, its address, the high half
-- of the next word, and the bytes that the RAM received since the address was set.
pub record Window : Type 0 where
  pub opened : Bool
  pub low : ℕ
  pub high : ℕ
  pub half : ℕ
  pub ram : List ℕ

abbrev pub shut : Window
shut = record { opened = false; low = 0; high = 0; half = 0; ram = [] }

-- What a write that reaches the PHY does to the window.
abbrev pub effect : Write → Window → Window
effect w x =
    if is_write lr_ctrl w
    then record x { opened = w.val == 0x0038 }
    else if is_write lr_addr_low w
    then record x { low = w.val; ram = [] }
    else if is_write lr_addr_high w
    then record x { high = w.val; ram = [] }
    else if is_write lr_data_high w
    then record x { half = w.val }
    else if is_write lr_data_low w && x.opened
    then record x { ram = x.ram ++ bytes_of x.half w.val }
    else x

-- The window after a log of writes, of which those that the bus refused have no effect.
unfoldable pub window_of : (List Write → Option Errno) → List Write → Window
window_of accept [] = shut
window_of accept (w ∷ ws) =
    let before = window_of accept ws in
    elim (accept (w ∷ ws)) as (λ x. Window) [ some e ↦ before | none ↦ effect w before ]

-- The window was open all the time, and the RAM received these bytes at the address.
pub record Streams (x y : Window) (bytes : List ℕ) : Type 0 where
  pub opened : y.opened ≡ true
  pub low : y.low ≡ x.low
  pub high : y.high ≡ x.high
  pub ram : y.ram ≡ x.ram ++ bytes

abbrev pub IsByte : ℕ → Type 0
IsByte c = c < 2 ^ 8

word_bytes :
    (p q r s : ℕ)
    → IsByte p × IsByte q × IsByte r × IsByte s
    → bytes_of (le32 p q r s / 2 ^ 16 % 2 ^ 16) (le32 p q r s % 2 ^ 16) ≡ p ∷ q ∷ r ∷ s ∷ []
word_bytes p q r s h =
    let low : le32 p q r s % 2 ^ 16 ≡ p + 2 ^ 8 * q = omega (arith, h) in
    let high : le32 p q r s / 2 ^ 16 % 2 ^ 16 ≡ r + 2 ^ 8 * s = omega (arith, h) in
    let b0 : le32 p q r s % 2 ^ 16 % 256 ≡ p = omega (arith, low, h) in
    let b1 : le32 p q r s % 2 ^ 16 / 256 ≡ q = omega (arith, low, h) in
    let b2 : le32 p q r s / 2 ^ 16 % 2 ^ 16 % 256 ≡ r = omega (arith, high, h) in
    let b3 : le32 p q r s / 2 ^ 16 % 2 ^ 16 / 256 ≡ s = omega (arith, high, h) in
    rw (b0, b1, b2, b3) refl

-- The two accepted writes of a word.
pub word-Streams :
    (p q r s : ℕ) (x : Window)
    → IsByte p × IsByte q × IsByte r × IsByte s
    → x.opened ≡ true
    → Streams x
        (effect
          (record { dev = 0x01; reg = lr_data_low; val = le32 p q r s % 2 ^ 16 })
          (effect
            (record { dev = 0x01; reg = lr_data_high; val = le32 p q r s / 2 ^ 16 % 2 ^ 16 })
            x))
        (p ∷ q ∷ r ∷ s ∷ [])
word-Streams p q r s x h opened = rw opened (record {
  opened = refl;
  low = refl;
  high = refl;
  ram = ap (λ l. x.ram ++ l) (word_bytes p q r s h);
})

pub Streams-next :
    (x y z : Window) (bytes rest : List ℕ)
    → Streams x y bytes
    → Streams y z rest
    → Streams x z (bytes ++ rest)
Streams-next x y z bytes rest a b = record {
  opened = b.opened;
  low = b.low ∙ a.low;
  high = b.high ∙ a.high;
  ram = b.ram ∙ ap (λ l. l ++ rest) a.ram ∙ append_assoc x.ram bytes rest;
}
