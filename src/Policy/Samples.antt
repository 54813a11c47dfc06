-- ===== src/Policy/Samples.antt =====
-- Digests to run tests with.
use memgov.Policy.{Digests}

abbrev pub digests : Digests
digests = record { runtime = λ c. c.id; declaration = λ d. d }
