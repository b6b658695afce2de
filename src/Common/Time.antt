-- ===== src/Common/Time.antt =====
-- Moments and durations of the `time` package. A moment is a number of nanoseconds since the zero
-- `time.Time`, so that 0 is the zero value; a duration is a number of nanoseconds.
use Prim.Native.Nat.{ℕ, ◌+◌, ◌-◌, ◌*◌, ◌/◌, ◌^◌, min}
use mathlib.Core.Bool.{Bool}
use tenderseed.Common.Int.{ℤ, pos_part, neg_part, sub_ℕ}
use tenderseed.Common.Tests.{ltb, ◌==◌}

abbrev pub second : ℕ
second = 1000000000

abbrev pub minute : ℕ
minute = 60 * second

abbrev pub hour : ℕ
hour = 60 * minute

-- `moment.IsZero()`
abbrev pub is_zero : ℕ → Bool
is_zero t = t == 0

-- `left.Before(right)` and `left.After(right)`
abbrev pub before : ℕ → ℕ → Bool
before left right = ltb left right

abbrev pub after : ℕ → ℕ → Bool
after left right = ltb right left

-- The longest `time.Duration`, at which `Sub` saturates.
abbrev pub max_duration : ℕ
max_duration = 2 ^ 63 - 1

-- `now.Sub(moment)` for a moment that is not in the future.
abbrev pub elapsed : ℕ → ℕ → ℕ
elapsed now moment = min (now - moment) max_duration

-- Seconds from the zero `time.Time` to the Unix epoch.
abbrev pub unix_epoch : ℕ
unix_epoch = 62135596800

-- `moment.Unix()`: whole seconds since the epoch.
unfoldable pub unix : ℕ → ℤ
unix moment = sub_ℕ (moment / second) unix_epoch

-- `time.Unix(seconds, 0)`. A date before the year 1 is not represented and reads as the zero time.
unfoldable pub from_unix : ℤ → ℕ
from_unix s = (pos_part s + unix_epoch - neg_part s) * second
