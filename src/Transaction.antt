-- ===== src/Transaction.antt =====
-- core/db.go: Store.Mutate, the transaction around every operation, and core/types.go: Request, Result.
-- The domain state `S`, what an operation answers, `O`, and its input, `I`, are parameters, with
-- the digest of an input, the JSON text of an answer and the redaction of a stored one. The queue
-- of writers, cancellation and SQLite's own failures are left out: a call runs alone or not at all.
pub mod Replay
pub mod Tests
use memgov.Base.{
  ℕ, String, Bool, true, false, not, ◌&&◌, Option, none, some, List, [], ◌∷◌, ◌++◌, Result, ok, err,
  ◌>>=◌, ◌>>◌, fail_if, conflict, internal, find_row, count_rows, str_eq, ltb, if◌then◌else◌, Clock,
  now,
}

pub record Request (I : Type 0) : Type 0 where
  pub id : String
  pub command : String
  pub scope : String
  pub actor : String
  pub key : String
  pub input : I

-- Result of core/types.go.
pub record Answer : Type 0 where
  pub raw : String
  pub cached : Bool

-- Rows of `requests` and of `idempotency`.
pub record RequestRow : Type 0 where
  pub id : String
  pub command : String
  pub actor : String
  pub operation_id : String
  pub created_at : String

pub record Remembered : Type 0 where
  pub scope : String
  pub command : String
  pub key : String
  pub request_hash : String
  pub result : String
  pub created_at : String

pub record Store (S : Type 0) : Type 0 where
  pub domain : S
  pub requests : List RequestRow
  pub idempotency : List Remembered

-- What an operation leaves when it succeeds; `operation` is the last one that it audited.
pub record Effect (S O : Type 0) : Type 0 where
  pub out : O
  pub operation : String
  pub state : S

pub same_key : {I : Type 0} → Request I → Remembered → Bool
same_key req r = str_eq r.scope req.scope && str_eq r.command req.command && str_eq r.key req.key

pub new_request : {I : Type 0} → Clock → String → Request I → String → RequestRow
new_request clock new_id req operation = record {
  id = if str_eq req.id "" then new_id else req.id;
  command = req.command;
  actor = if str_eq req.actor "" then "cli" else req.actor;
  operation_id = operation;
  created_at = now clock;
}

module _ {S O I : Type 0} (digest : I → String) (marshal : O → Result String)
    (redact : S → String → Result String) where
  pub remembered : Request I → Store S → Option Remembered
  remembered req s = if str_eq req.key "" then none else find_row (same_key req) s.idempotency

  pub memory : Clock → Request I → String → List Remembered
  memory clock req raw =
      if str_eq req.key ""
      then []
      else record {
        scope = req.scope;
        command = req.command;
        key = req.key;
        request_hash = digest req.input;
        result = raw;
        created_at = now clock;
      }
        ∷ []

  -- State, request and stored answer become visible together.
  pub commit : Clock → Request I → RequestRow → String → Effect S O → Store S → Store S
  commit clock req row raw e s = record {
    domain = e.state;
    requests = s.requests ++ row ∷ [];
    idempotency = s.idempotency ++ memory clock req raw;
  }

  pub execute :
      Clock → String → Request I → (S → Result (Effect S O)) → Store S → Result (Answer × Store S)
  execute clock new_id req fn s = do
    e ← fn s.domain
    raw ← marshal e.out
    let row = new_request clock new_id req e.operation
    fail_if (ltb 0 (count_rows (λ (r : RequestRow). str_eq r.id row.id) s.requests)) internal
    ok (record { raw = raw; cached = false }, commit clock req row raw e s)

  pub replay : Request I → Remembered → Store S → Result (Answer × Store S)
  replay req r s = do
    fail_if (not (str_eq r.request_hash (digest req.input))) conflict
    raw ← redact s.domain r.result
    ok (record { raw = raw; cached = true }, s)

  pub mutate :
      Clock → String → Request I → (S → Result (Effect S O)) → Store S → Result (Answer × Store S)
  mutate clock new_id req fn s = elim (remembered req s) [
    | some r ↦ replay req r s
    | none ↦ execute clock new_id req fn s
  ]
