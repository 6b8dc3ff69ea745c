-- ===== src/Prelude/Codes.antt =====
-- Return codes: the negative errno values that the driver returns, and results that carry a value.
use mathlib.Core.Option.{Option}

pub data Errno : Type 0 where
  einval enomem enodev ebusy eexist eio eagain eshutdown econnreset : Errno
  etimedout einprogress eopnotsupp eperm enullpointer : Errno

-- An `int` that is 0 (`none`) or `-e` (`some e`).
abbrev pub Code : Type 0
Code = Option Errno

-- An `int` that is a value or `-e`.
pub data Result {ℓ} (A : Type ℓ) : Type ℓ where
  ok : A → Result A
  err : Errno → Result A

infixl 5 ◌>>=◌
abbrev pub ◌>>=◌ {ℓ κ} : {A : Type ℓ} {B : Type κ} → Result A → (A → Result B) → Result B
ok a >>= f = f a
err e >>= f = err e
