-- ===== src/Runtime.antt =====
-- What every component sees of the Go runtime: contexts, errors as values, and times.
-- `errors.Is` against a sentinel is a match on the constructor that stands for it.
use wb_test_task.Base.{ℕ, Bool, true, false, Option, if◌then◌else◌, zero, suc}
use wb_test_task.Base.Int.{ℤ, pos, negsuc, pos_part, ltb_ℤ, ◌-ℤ◌, floor_div, floor_mod}
use wb_test_task.Base.Text.{Text}

pub data ContextError : Type 0 where
  canceled deadline_exceeded : ContextError

-- The sentinels of the program, and `other` for an error of code outside it.
pub data Error : Type 0 where
  context : ContextError → Error
  empty_query query_too_long invalid_timestamp event_from_future : Error
  decode_failed : Error
  validation_failed : Text → Error
  other : ℕ → Error

-- What ctx.Err() answers when an operation looks: `none` while the context is not done.
abbrev pub Context : Type 0
Context = Option ContextError

pub data Result {ℓ} (A : Type ℓ) : Type ℓ where
  ok : A → Result A
  err : Error → Result A

infixl 5 ◌>>=◌
abbrev pub ◌>>=◌ {ℓ κ} : {A : Type ℓ} {B : Type κ} → Result A → (A → Result B) → Result B
ok a >>= f = f a
err e >>= f = err e

-- isContextError
unfoldable pub is_context_error : Error → Bool
is_context_error (context _) = true
is_context_error _ = false

-- A time.Time: nanoseconds since its zero value, January 1 of year 1, UTC.
abbrev pub Time : Type 0
Time = ℤ

-- A time.Duration, in nanoseconds.
abbrev pub Duration : Type 0
Duration = ℤ

abbrev pub nanos_per_second : ℕ
nanos_per_second = 1000000000

-- 1970 begins this many seconds after year 1.
abbrev pub unix_epoch_second : ℕ
unix_epoch_second = 62135596800

-- t.IsZero()
unfoldable pub is_zero_time : Time → Bool
is_zero_time (pos zero) = true
is_zero_time (pos (suc n)) = false
is_zero_time (negsuc n) = false

-- t.Truncate(d)
unfoldable pub truncate_time : Time → Duration → Time
truncate_time t d = if ltb_ℤ (pos 0) d then t -ℤ pos (floor_mod t (pos_part d)) else t

-- t.Unix()
unfoldable pub unix_seconds : Time → ℤ
unix_seconds t = floor_div t nanos_per_second -ℤ pos unix_epoch_second
