-- ===== src/Outbox/Redaction.antt =====
-- core/direct_retention.go: redactRuntimeConclusions, as far as it rewrites the drafts.
-- The texts that it strips, and strings.ReplaceAll, are one argument: the function `f` from a stored
-- content to the redacted one.
use memgov.Base.{
  ◌≡◌, ◌∙◌, refl, String, Bool, not, some, str_eq, find_row, update_rows, if◌then◌else◌, Bool-cases,
  inl, inr, arith,
}
use memgov.Base.Table.{find_row-update}
use memgov.Base.Counts.{count_rows-update_eq}
use memgov.Schema.{Db}
use memgov.Schema.Drafts.{Draft}
use memgov.Outbox.Dispatch.{is_row}
use memgov.Outbox.Once.{WellFormed, is_handed}

-- Every row with a content is read; the row keeps everything else.
unfoldable pub redact_drafts : (String → String) → Db → Db
redact_drafts f db = record db {
  outbox =
      update_rows (λ (d : Draft). not (str_eq d.content ""))
        (λ d. record d { content = f d.content }) db.outbox;
}

-- What becomes of one content.
unfoldable pub redacted : (String → String) → String → String
redacted f content = if not (str_eq content "") then f content else content

pub redact_drafts-found :
    (f : String → String) (db : Db) (id : String) (d : Draft)
    → find_row (is_row id) db.outbox ≡ some d
    → find_row (is_row id) (redact_drafts f db).outbox
      ≡ some (record d { content = redacted f d.content })
unfolding redact_drafts redacted
redact_drafts-found f db id d h =
    find_row-update (is_row id) (λ (r : Draft). not (str_eq r.content ""))
      (λ r. record r { content = f r.content }) db.outbox (λ r. refl)
    ∙ rw h (elim (Bool-cases (str_eq d.content "")) [ inl e ↦ rw e refl | inr e ↦ rw e refl ])

pub redact_drafts-WellFormed :
    (f : String → String) (db : Db) → WellFormed db → WellFormed (redact_drafts f db)
unfolding redact_drafts is_handed
redact_drafts-WellFormed f db w id =
    let text : Draft → Bool = λ d. not (str_eq d.content "") in
    let change : Draft → Draft = λ d. record d { content = f d.content } in
    let rows = count_rows-update_eq (is_row id) text change db.outbox (λ d. refl) in
    let handed = count_rows-update_eq (is_handed id) text change db.outbox (λ d. refl) in
    ground (arith, w id)
