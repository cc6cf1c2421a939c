-- ===== src/Slots.antt =====
-- Tables of a fixed number of slots: shim_dma.c binds keys to devices in one, and shim_netdev.c keeps
-- the callbacks of notifiers in another. A free slot has the key 0, which is NULL.
pub mod Laws
pub mod Emptied
use cudy_wr3600_openwrt.Prelude.{
  List, Option, [], if◌then◌else◌, none, not, some, ℕ, ◌&&◌, ◌==◌, ◌∷◌,
}

pub record Slot : Type 0 where
  pub key : ℕ
  pub value : ℕ

abbrev pub vacant : Slot
vacant = record { key = 0; value = 0 }

-- Emptying the slot of a key: the value that it had, or NULL, and the slots.
unfoldable pub take_out : ℕ → List Slot → ℕ × List Slot
take_out old [] = (0, [])
take_out old (x ∷ xs) =
    let rest = take_out old xs in
    if not (old == 0) && (x.key == old) then (x.value, vacant ∷ xs) else (rest.0, x ∷ rest.1)

-- The value of a key, or NULL.
unfoldable pub value_of : ℕ → List Slot → ℕ
value_of old [] = 0
value_of old (x ∷ xs) =
    let rest = value_of old xs in if not (old == 0) && (x.key == old) then x.value else rest

abbrev pub slot_key : Option Slot → ℕ
slot_key none = 0
slot_key (some x) = x.key
