-- ===== src/Base/Time.antt =====
-- time.Time in UTC, as nanoseconds since the epoch, and its two text forms. The date and the time
-- of day to the second are the time package's; what the fraction looks like is written out.
use mathlib.Core.Path.{◌≡◌}
use native.Mathlib.Omega.{arith}
use Prim.Native.Nat.{◌+◌, ◌*◌, ◌<◌, ℕ, ◌/◌, ◌%◌}
use Prim.Native.String.{String, ◌++◌}
use memgov.Base.Tests.{◌==◌, if◌then◌else◌}
use memgov.Base.Strings.{decimals}

abbrev pub second : ℕ
second = 1_000_000_000

-- `stamp n` is second n in the layout 2006-01-02T15:04:05.
pub record Clock : Type 0 where
  pub time : ℕ
  pub stamp : ℕ → String

fraction : ℕ → String
fraction n = if n == 0 then "" else "." ++ decimals 9 n

-- Format(time.RFC3339): the fraction is dropped.
unfoldable pub format : Clock → ℕ → String
format c t = c.stamp (t / second) ++ "Z"

-- Format(time.RFC3339Nano): zeros at the end of the fraction, and an empty fraction, are dropped.
unfoldable pub format_nano : Clock → ℕ → String
unfolding fraction
format_nano c t = c.stamp (t / second) ++ (fraction (t % second) ++ "Z")

-- core/types.go: Now
unfoldable pub now : Clock → String
unfolding format_nano
now c = format_nano c c.time

-- The texts of a whole second, and of a time within it.
pub format_nano_whole : (c : Clock) (s : ℕ) → format_nano c (s * second) ≡ c.stamp s ++ ("" ++ "Z")
unfolding format_nano
format_nano_whole c s =
    let q : s * second / second ≡ s = omega arith in
    let r : s * second % second ≡ 0 = omega arith in rw (q, r)

pub format_nano_within :
    (c : Clock) (s n : ℕ)
    → 0 < n
    → n < second
    → format_nano c (s * second + n) ≡ c.stamp s ++ (("." ++ decimals 9 n) ++ "Z")
unfolding format_nano
format_nano_within c s n pos small =
    let q : (s * second + n) / second ≡ s = omega arith in
    let r : (s * second + n) % second ≡ n = omega arith in rw (q, r) (ground arith)
