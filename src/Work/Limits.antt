-- ===== src/Work/Limits.antt =====
-- core/runtime_scheduling.go: Scheduling and its normal form. The code's integers are natural
-- numbers here: a negative one it refuses.
use memgov.Base.{
  ℕ, ◌≤◌, ◌≡◌, Bool, not, ◌&&◌, ◌||◌, Result, ok, ◌>>◌, fail_if, invalid_input, ltb, ◌==◌,
  if◌then◌else◌, arith, subst, sym,
}
use memgov.Schema.Runtimes.{Scheduling}

-- `if n == 0 { n = d }`
abbrev pub or_default : ℕ → ℕ → ℕ
or_default n d = if n == 0 then d else n

unfoldable pub with_defaults : Scheduling → ℕ → Scheduling
with_defaults s legacy = record {
  analysis_concurrency = or_default s.analysis_concurrency 8;
  execution_concurrency = or_default (or_default s.execution_concurrency legacy) 4;
  analysis_timeout_seconds = or_default s.analysis_timeout_seconds 120;
  execution_timeout_seconds = or_default s.execution_timeout_seconds 900;
  review_timeout_seconds = or_default s.review_timeout_seconds 120;
}

abbrev pub bad_concurrency : ℕ → Bool
bad_concurrency n = ltb n 1 || ltb 32 n

abbrev pub bad_timeout : ℕ → Bool
bad_timeout n = ltb n 1 || ltb 86400 n

unfoldable pub check_limits : Scheduling → Result Scheduling
check_limits s = do
  fail_if (bad_concurrency s.analysis_concurrency || bad_concurrency s.execution_concurrency)
      invalid_input
  fail_if
      (bad_timeout s.analysis_timeout_seconds
        || bad_timeout s.execution_timeout_seconds
        || bad_timeout s.review_timeout_seconds)
      invalid_input
  ok s

unfoldable pub normalize : Scheduling → ℕ → Result Scheduling
normalize s legacy = do
  fail_if
      (not (legacy == 0)
        && not (s.execution_concurrency == 0)
        && not (legacy == s.execution_concurrency))
      invalid_input
  check_limits (with_defaults s legacy)

-- All five limits are in range.
abbrev pub InRange : Scheduling → Type 0
InRange s =
    (1 ≤ s.analysis_concurrency)
    × (s.analysis_concurrency ≤ 32)
    × (1 ≤ s.execution_concurrency)
    × (s.execution_concurrency ≤ 32)
    × (1 ≤ s.analysis_timeout_seconds)
    × (s.analysis_timeout_seconds ≤ 86400)
    × (1 ≤ s.execution_timeout_seconds)
    × (s.execution_timeout_seconds ≤ 86400)
    × (1 ≤ s.review_timeout_seconds)
    × (s.review_timeout_seconds ≤ 86400)

check_limits-InRange : (s t : Scheduling) → check_limits s ≡ ok t → (t ≡ s) × InRange s
unfolding check_limits
check_limits-InRange s t h = ground arith

InRange-check : (s : Scheduling) → InRange s → check_limits s ≡ ok s
unfolding check_limits
InRange-check s h = ground arith

with_defaults-InRange : (s : Scheduling) → InRange s → with_defaults s 0 ≡ s
unfolding with_defaults
with_defaults-InRange s h = ground arith

normalize-inv :
    (s : Scheduling) (legacy : ℕ) (t : Scheduling)
    → normalize s legacy ≡ ok t
    → check_limits (with_defaults s legacy) ≡ ok t
unfolding normalize
normalize-inv s legacy t h = ground arith

-- What normalizing yields is in range and is its own normal form: the stored limits are read back
-- as they are.
pub normalize-stable :
    (s : Scheduling) (legacy : ℕ) (t : Scheduling)
    → normalize s legacy ≡ ok t
    → InRange t × (normalize t 0 ≡ ok t)
unfolding normalize
normalize-stable s legacy t h =
    let (same, range) =
      check_limits-InRange (with_defaults s legacy) t (normalize-inv s legacy t h) in
    let r : InRange t = subst InRange (sym same) range in
    (r, rw (with_defaults-InRange t r) (InRange-check t r))
