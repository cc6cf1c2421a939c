-- ===== src/Prelude/Int.antt =====
-- Signed integers over the native numbers: C's `int` as a value, and kernel error numbers.
use Prim.Native.Nat.{ℕ}

-- `negsuc n` is -(n + 1).
pub data ℤ : Type 0 where
  pos : ℕ → ℤ
  negsuc : ℕ → ℤ

-- `-EINVAL` and its kind: minus a positive error number.
pub data Errno : Type 0 where
  eperm enoent eagain enomem ebusy eexist einval enodev enospc eopnotsupp euclean etimedout exdev
        eoverflow eprobe_defer eio :
      Errno

-- `int` results that are 0 (or a count) on success and a negative error number otherwise.
pub data Result {ℓ} (A : Type ℓ) : Type ℓ where
  ok : A → Result A
  err : Errno → Result A
