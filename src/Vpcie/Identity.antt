-- ===== src/Vpcie/Identity.antt =====
-- The identity and the base address that the PCI core reads from vpcie66.c.
use cudy_wr3600_openwrt.Prelude.{
  ap, arith, inl, pos, refl, true, ℕ, ◌%◌, ◌*◌, ◌+◌, ◌/◌, ◌<◌, ◌^◌, ◌∙◌, ◌≡◌, ◌≢◌, ◌≤◌,
}
use Prim.Native.Nat.{bit_or}
use cudy_wr3600_openwrt.Prelude.Bits.{bit_or-fields}
use cudy_wr3600_openwrt.Vpcie.{
  Vdev, successful, load_bytes, access_valid, cfg_read, read_word, ones,
}
use cudy_wr3600_openwrt.Vpcie.Build.{device_words, build_cfg}
use cudy_wr3600_openwrt.Vpcie.Access.{load_bytes-outside, load-store_word, word, cfg_read-granted}
use cudy_wr3600_openwrt.Vpcie.Caps.{build_cfg-word, words_of}

identity_word :
    (vh : Vdev) → load_bytes 4 0 (words_of vh) ≡ bit_or (vh.devid * 2 ^ 16 % 2 ^ 32) 0x14e4 % 2 ^ 32
unfolding device_words
identity_word vh =
    load_bytes-outside 4 0 4 0x3c _ _ (inl (omega arith))
    ∙ load_bytes-outside 4 0 4 0x2c _ _ (inl (omega arith))
    ∙ load_bytes-outside 4 0 4 0x10 _ _ (inl (omega arith))
    ∙ load_bytes-outside 4 0 4 8 _ _ (inl (omega arith))
    ∙ load-store_word 0 _ _

class_word : (vh : Vdev) → load_bytes 4 8 (words_of vh) ≡ bit_or (0x0280 * 2 ^ 16) vh.rev % 2 ^ 32
unfolding device_words
class_word vh =
    load_bytes-outside 4 8 4 0x3c _ _ (inl (omega arith))
    ∙ load_bytes-outside 4 8 4 0x2c _ _ (inl (omega arith))
    ∙ load_bytes-outside 4 8 4 0x10 _ _ (inl (omega arith))
    ∙ load-store_word 8 _ _

bar_word :
    (vh : Vdev)
    → load_bytes 4 0x10 (words_of vh) ≡ bit_or (vh.win_start / 16 * 16 % 2 ^ 32) 4 % 2 ^ 32
unfolding device_words
bar_word vh =
    load_bytes-outside 4 0x10 4 0x3c _ _ (inl (omega arith))
    ∙ load_bytes-outside 4 0x10 4 0x2c _ _ (inl (omega arith))
    ∙ load-store_word 0x10 _ _

read_built :
    (vh : Vdev) (number devfn at v : ℕ)
    → access_valid vh number devfn ≡ true
    → vh.nirq ≤ 10
    → (at + 4 ≤ 0x30) × (at % 4 ≡ 0)
    → load_bytes 4 at (words_of vh) ≡ v
    → v ≢ ones
    → cfg_read (build_cfg vh) number devfn (pos at) 4 0 ≡ (successful, v)
unfolding read_word build_cfg
read_built vh number devfn at v h n (low, al) e other =
    cfg_read-granted (build_cfg vh) number devfn at 0 word h (omega (arith, low)) al
    ∙ ap (λ x. (successful, x))
        (ap (read_word vh at) (build_cfg-word vh at n (omega (arith, low)) ∙ e)
          ∙ ground (arith, other, low))

-- The PCI core reads Broadcom's vendor number with the device number of the device tree, the class of
-- other network controllers with the revision, and the start of the radio's window as a 64-bit memory
-- address.
pub identity :
    (vh : Vdev) (number devfn : ℕ)
    → access_valid vh number devfn ≡ true
    → vh.nirq ≤ 10
    → (vh.devid < 2 ^ 16) × (vh.rev < 2 ^ 8) × (vh.win_start < 2 ^ 32)
    → (cfg_read (build_cfg vh) number devfn (pos 0) 4 0 ≡ (successful, vh.devid * 2 ^ 16 + 0x14e4))
      × (cfg_read (build_cfg vh) number devfn (pos 8) 4 0 ≡ (successful, 0x0280 * 2 ^ 16 + vh.rev))
      × (cfg_read (build_cfg vh) number devfn (pos 0x10) 4 0
          ≡ (successful, vh.win_start / 16 * 16 + 4))
identity vh number devfn h n (dev, rev, win) =
    let small : vh.devid * 2 ^ 16 % 2 ^ 32 ≡ vh.devid * 2 ^ 16 = omega (arith, dev) in
    let start : vh.win_start / 16 * 16 % 2 ^ 32 ≡ vh.win_start / 16 * 2 ^ 4 = omega (arith, win) in
    (
      read_built vh number devfn 0 (vh.devid * 2 ^ 16 + 0x14e4) h n (omega arith, refl)
          (omega (
            arith,
            identity_word vh,
            ap (λ t. bit_or t 0x14e4) small,
            bit_or-fields 16 vh.devid 0x14e4 (omega arith),
            dev,
          ))
          (λ e. omega (arith, e, dev)),
      read_built vh number devfn 8 (0x0280 * 2 ^ 16 + vh.rev) h n (omega arith, refl)
          (omega (arith, class_word vh, bit_or-fields 16 0x0280 vh.rev (omega (arith, rev)), rev))
          (λ e. omega (arith, e, rev)),
      read_built vh number devfn 0x10 (vh.win_start / 16 * 16 + 4) h n (omega arith, refl)
          (omega (
            arith,
            bar_word vh,
            ap (λ t. bit_or t 4) start,
            bit_or-fields 4 (vh.win_start / 16) 4 (omega arith),
            win,
          ))
          (λ e. omega (arith, e, win)),
    )
