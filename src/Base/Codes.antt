-- ===== src/Base/Codes.antt =====
-- `status_t` of include/errors.h and arch/x86_64/include/types.h: a code of success is a number
-- that is not negative, and an error is the negated value of `enum error`.
use Prim.Native.Nat.{ℕ}
use mathlib.Core.Bool.{Bool, true, false}

pub data Error : Type 0 where
  einval eoverlap efull enomap enoent enotimpl eintegrity : Error

pub data Status : Type 0 where
  code : ℕ → Status
  error : Error → Status

-- The macro `ISERROR`.
abbrev pub is_error : Status → Bool
is_error (code n) = false
is_error (error e) = true

abbrev pub success : Status
success = code 0
