-- ===== src/Outbox.antt =====
-- core/outbox.go and core/dispatch.go: replies as drafts, and their delivery.
pub mod Checks
pub mod Contexts
pub mod Drafts
pub mod Dispatch
pub mod Once
pub mod Redaction
pub mod History
pub mod States
pub mod Safety
use memgov.Base.{
  ℕ, String, Bool, ◌&&◌, List, Result, or_fail, not_found, find_row, str_eq, ok, ◌>>=◌,
  if◌then◌else◌,
}
use memgov.Schema.{Db}
use memgov.Schema.Drafts.{Draft, RequestContext}

-- What the outbox asks of the runtime about a draft that reports on a task (`job_id` is not ""):
-- the text that may still be read, whether the task's trigger still admits the delivery
-- (PreviewDraft), and whether BeginDelivery may hand it over.
pub record TaskView : Type 0 where
  pub redact : Db → Draft → String
  pub trigger_current : Db → Draft → Result Bool
  pub may_begin : Db → Draft → Result (Unit {0})

-- The values that are digested.
pub data Json : Type 0 where
  str : String → Json
  num : ℕ → Json
  strs : List String → Json
  no_fields : Json

-- ReadContext. (The join with `channels` finds the channel by the foreign key.)
unfoldable pub read_context : Db → String → Result RequestContext
read_context db id = or_fail (find_row (λ c. str_eq c.id id) db.request_contexts) not_found

module _ (tasks : TaskView) where
  -- redactReadDraft
  unfoldable pub redact_draft : Db → Draft → Draft
  redact_draft db d = record d {
    content = if str_eq d.job_id "" then d.content else tasks.redact db d;
  }

  unfoldable pub read_draft : Db → String → Result Draft
  unfolding redact_draft
  read_draft db id = do
    d ← or_fail (find_row (λ d. str_eq d.id id) db.outbox) not_found
    ok (redact_draft db d)
