-- ===== src/Transaction/Tests.antt =====
-- Retries on a counter.
use memgov.Base.{
  ℕ, ◌+◌, ◌*◌, ◌≡◌, ◌≢◌, refl, String, true, false, List, [], ◌∷◌, Result, ok, Clock, second,
  find_row, count_rows,
}
use memgov.Schema.Samples.{clock_at}
use memgov.Transaction.{Store, Effect, mutate, remembered, execute, commit, new_request}
use memgov.Transaction.Replay.{Call, run, key_takes_effect_once}

abbrev clock : Clock
clock = clock_at (20 * second)

abbrev digest : String → String
digest input = input

abbrev marshal : ℕ → Result String
marshal n = ok "one"

abbrev redact : ℕ → String → Result String
redact n raw = ok raw

-- Counts up, and answers the count.
abbrev count_up : ℕ → Result (Effect ℕ ℕ)
count_up n = ok (record { out = n + 1; operation = "op"; state = n + 1 })

abbrev call : String → String → String → Call ℕ ℕ String
call id key input = record {
  clock = clock;
  new_id = id;
  request = record {
    id = "";
    command = "count";
    scope = "global";
    actor = "";
    key = key;
    input = input;
  };
  effect = count_up;
}

abbrev fresh : Store ℕ
fresh = record { domain = 0; requests = []; idempotency = [] }

abbrev row_of : Call ℕ ℕ String → Store ℕ → Store ℕ
row_of c s =
    commit digest marshal redact c.clock c.request (new_request c.clock c.new_id c.request "op")
      "one" (record { out = s.domain + 1; operation = "op"; state = s.domain + 1 }) s

abbrev counted : Store ℕ
counted = row_of (call "q1" "k" "in") fresh

first_call :
    mutate digest marshal redact clock "q1" (call "q1" "k" "in").request count_up fresh
    ≡ ok (record { raw = "one"; cached = false }, counted)
unfolding mutate remembered execute find_row count_rows
first_call = refl

named : ◌≢◌ {A = String} "k" ""
named h = cc

-- Another call comes between.
abbrev between : List (Call ℕ ℕ String)
between = call "q2" "" "in" ∷ []

key_takes_effect_once_example :
    mutate digest marshal redact clock "q3"
      (call "q3" "k" "in").request
      count_up
      (run digest marshal redact counted between)
    ≡ ok (record { raw = "one"; cached = true }, run digest marshal redact counted between)
key_takes_effect_once_example =
    key_takes_effect_once digest marshal redact (call "q1" "k" "in") (call "q3" "k" "in") between
      fresh (record { raw = "one"; cached = false }) counted first_call refl named
      (refl, refl, refl)
