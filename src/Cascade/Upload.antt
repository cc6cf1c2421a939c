-- ===== src/Cascade/Upload.antt =====
-- The firmware image as it arrives in the PHY that cascade6764.c drives.
use cudy_wr3600_openwrt.Prelude.{
  true, All, ap, append-nil, einval, false, length, not, sym, ◌≢◌, Errno, List, Option, [], arith,
  none, refl, some, ℕ, ◌%◌, ◌++◌, ◌/◌, ◌==◌, ◌^◌, ◌∙◌, ◌∷◌, ◌≡◌,
}
use cudy_wr3600_openwrt.Cascade.{Write, Bus, put}
use cudy_wr3600_openwrt.Cascade.Firmware.{
  lr_ctrl, lr_data_low, lr_data_high, lr_addr_low, lr_addr_high, close_window, push_word, le32,
  push_image, upload_firmware,
}
use cudy_wr3600_openwrt.Cascade.Window.{
  Window, shut, window_of, Streams, IsByte, word-Streams, Streams-next,
}

abbrev closing : Write
closing = record { dev = 0x01; reg = lr_ctrl; val = 0 }

-- The window was closed last, and if the upload succeeded through an open window, the image was received
-- before that.
abbrev pub Uploaded : (List Write → Option Errno) → Window → List ℕ → Option Errno × Bus → Type 0
Uploaded accept x image (o, t) =
    (ws : List Write) × (t.writes ≡ closing ∷ ws)
    × (o ≡ none → x.opened ≡ true → Streams x (window_of accept ws) image)

-- A word of the image by what the bus answers to its two writes.
Uploaded-word :
    (first second : Option Errno) (accept : List Write → Option Errno) (x : Window) (p q r s : ℕ)
    (rest : List ℕ) (high low : Bus)
    → (first ≡ none
        → second ≡ none
        → x.opened ≡ true
        → Streams x (window_of accept low.writes) (p ∷ q ∷ r ∷ s ∷ []))
    → Uploaded accept (window_of accept low.writes) rest (push_image rest low)
    → let pushed = elim first as (λ o. Option Errno × Bus) [
      | some e ↦ (some e, high)
      | none ↦ (second, low)
    ] in
      Uploaded accept x (p ∷ q ∷ r ∷ s ∷ rest) (elim pushed.0 as (λ o. Option Errno × Bus) [
        | some e ↦ close_window (some e) pushed.1
        | none ↦ push_image rest pushed.1
      ])
Uploaded-word (some e) second accept x p q r s rest high low word later =
    (high.writes, refl, λ z. absurd (ground (arith, z)))
Uploaded-word none (some e) accept x p q r s rest high low word later =
    (low.writes, refl, λ z. absurd (ground (arith, z)))
Uploaded-word none none accept x p q r s rest high low word (ws, log, ends) = (
  ws,
  log,
  λ z opened.
      let sent = word refl refl opened in
      Streams-next x (window_of accept low.writes) (window_of accept ws) (p ∷ q ∷ r ∷ s ∷ []) rest
        sent (ends z sent.opened),
)

push_image-Uploaded :
    (image : List ℕ) (b : Bus)
    → length image % 4 ≡ 0
    → All IsByte image
    → Uploaded b.accept (window_of b.accept b.writes) image (push_image image b)
unfolding push_image push_word window_of
push_image-Uploaded [] b h v = (
  b.writes,
  refl,
  λ z opened. record {
    opened = opened;
    low = refl;
    high = refl;
    ram = sym (append-nil (window_of b.accept b.writes).ram);
  },
)
push_image-Uploaded (p ∷ []) b h v = absurd (omega (arith, h))
push_image-Uploaded (p ∷ q ∷ []) b h v = absurd (omega (arith, h))
push_image-Uploaded (p ∷ q ∷ r ∷ []) b h v = absurd (omega (arith, h))
push_image-Uploaded (p ∷ q ∷ r ∷ s ∷ rest) b h v =
    let x = window_of b.accept b.writes in
    let word = le32 p q r s in
    let high : Bus = put 0x01 lr_data_high (word / 2 ^ 16 % 2 ^ 16) b in
    let low : Bus = put 0x01 lr_data_low (word % 2 ^ 16) high in
    let streams : b.accept high.writes ≡ none
        → b.accept low.writes ≡ none
        → x.opened ≡ true
        → Streams x (window_of b.accept low.writes) (p ∷ q ∷ r ∷ s ∷ []) =
      λ e1 e2 opened.
        rw (e2, e1) (word-Streams p q r s x (v.0, v.1.0, v.1.1.0, v.1.1.1.0) opened) in
    Uploaded-word (b.accept high.writes) (b.accept low.writes) b.accept x p q r s rest high low
      streams (push_image-Uploaded rest low (omega (arith, h)) v.1.1.1.1)

-- The three writes that point the window at the address 0 and open it.
abbrev set_up : List Write → List Write
set_up ws =
    record { dev = 0x01; reg = lr_ctrl; val = 0x0038 }
    ∷ record { dev = 0x01; reg = lr_addr_high; val = 0x0000 }
    ∷ record { dev = 0x01; reg = lr_addr_low; val = 0x0000 }
    ∷ ws

-- The bus accepts these three writes.
abbrev pub IsSetUp : Bus → Type 0
IsSetUp b =
    let low : Bus = put 0x01 lr_addr_low 0x0000 b in
    let high : Bus = put 0x01 lr_addr_high 0x0000 low in
    (b.accept low.writes ≡ none)
    × (b.accept high.writes ≡ none)
    × (b.accept (put 0x01 lr_ctrl 0x0038 high).writes ≡ none)

-- The window was closed last; just before, if the upload succeeded, it was open at the address 0 and the
-- RAM had received the image.
abbrev pub Sent : Bus → List ℕ → Option Errno × Bus → Type 0
Sent b image (o, t) =
    (ws : List Write) × (t.writes ≡ closing ∷ ws)
    × (o ≡ none → IsSetUp b → Streams shut (window_of b.accept ws) image)

Sent-Uploaded :
    (b : Bus) (x : Window) (image : List ℕ) (r : Option Errno × Bus)
    → (IsSetUp b → (x.opened ≡ true) × (x.low ≡ 0) × (x.high ≡ 0) × (x.ram ≡ []))
    → Uploaded b.accept x image r
    → Sent b image r
Sent-Uploaded b x image (o, t) start (ws, log, sent) = (
  ws,
  log,
  λ z ready.
      let (opened, low, high, ram) = start ready in
      let y = sent z opened in
      record {
        opened = y.opened;
        low = y.low ∙ low;
        high = y.high ∙ high;
        ram = y.ram ∙ ap (λ l. l ++ image) ram;
      },
)

opened_at :
    (b : Bus)
    → IsSetUp b
    → let x = window_of b.accept (set_up b.writes) in
      (x.opened ≡ true) × (x.low ≡ 0) × (x.high ≡ 0) × (x.ram ≡ [])
unfolding window_of
opened_at b (e1, e2, e3) = rw (e3, e2, e1) (refl, refl, refl, refl)

-- The upload of an image of bytes whose length is a multiple of four closes the window to the RAM on every path.
-- When it succeeds and the bus accepted the three writes that set the window up, the window was open at
-- the address 0 until then, and by the writes that the bus accepted the RAM received exactly the image's
-- bytes, in order. An image of another length is refused before anything is written.
pub upload_firmware-Sent :
    (image : List ℕ) (b : Bus)
    → All IsByte image
    → (length image % 4 ≢ 0 → upload_firmware image b ≡ (some einval, b))
      × (length image % 4 ≡ 0 → Sent b image (upload_firmware image b))
unfolding upload_firmware
upload_firmware-Sent image b v = (
  λ h. ground (arith, h),
  λ h.
      let whole : not (length image % 4 == 0) ≡ false = ground (arith, h) in
      let ready : Bus = record b { writes = set_up b.writes } in
      rw whole (
        Sent-Uploaded b (window_of b.accept (set_up b.writes)) image (push_image image ready)
          (opened_at b) (push_image-Uploaded image ready h v)),
)
