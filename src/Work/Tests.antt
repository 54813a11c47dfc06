-- ===== src/Work/Tests.antt =====
-- Directory locks and limits on concrete calls.
use memgov.Base.{
  ℕ, ◌*◌, ◌≡◌, refl, String, true, false, Option, none, List, [], ◌∷◌, ok, Clock, second,
  starts_with,
}
use memgov.Schema.{empty}
use memgov.Schema.Samples.{clock_at}
use memgov.Policy.Samples.{digests}
use memgov.Work.{overlap, is_below}
use memgov.Schema.Runtimes.{Scheduling}
use memgov.Work.Limits.{normalize, with_defaults, check_limits, InRange, normalize-stable}
use memgov.Work.Roots.{Call, lock, release, run, Exclusive, locked_roots_stay_apart}

abbrev clock : Clock
clock = clock_at (20 * second)

abbrev no_julianday : String → Option ℕ
no_julianday t = none

abbrev calls : List Call
calls =
    lock clock "l1" ("/srv/a" ∷ "/srv/b" ∷ [])
    ∷ lock clock "l2" ("/srv/a/sub" ∷ [])
    ∷ lock clock "l2" ("/srv/ab" ∷ [])
    ∷ release "l1"
    ∷ lock clock "l3" ("/srv" ∷ [])
    ∷ []

empty-Exclusive : Exclusive empty.runtime_resource_locks
unfolding empty
empty-Exclusive = tt

locked_roots_stay_apart_example :
    Exclusive (run no_julianday digests empty calls).runtime_resource_locks
locked_roots_stay_apart_example =
    locked_roots_stay_apart no_julianday digests empty calls empty-Exclusive

-- A directory and one in it overlap, two whose names begin alike do not.
overlaps : (overlap "/srv/a" "/srv/a/sub" ≡ true) × (overlap "/srv/a" "/srv/ab" ≡ false)
unfolding overlap is_below starts_with
overlaps = (refl, refl)

abbrev asked : Scheduling
asked = record {
  analysis_concurrency = 0;
  execution_concurrency = 0;
  analysis_timeout_seconds = 60;
  execution_timeout_seconds = 0;
  review_timeout_seconds = 0;
}

abbrev limits : Scheduling
limits = record {
  analysis_concurrency = 8;
  execution_concurrency = 6;
  analysis_timeout_seconds = 60;
  execution_timeout_seconds = 900;
  review_timeout_seconds = 120;
}

normal_form : normalize asked 6 ≡ ok limits
unfolding normalize with_defaults check_limits
normal_form = refl

normalize-stable_example : InRange limits × (normalize limits 0 ≡ ok limits)
normalize-stable_example = normalize-stable asked 6 limits normal_form
