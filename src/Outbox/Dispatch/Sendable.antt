-- ===== src/Outbox/Dispatch/Sendable.antt =====
-- core/dispatch.go: what the checks of a preview stand for when they all pass.
use memgov.Base.{
  ◌≤◌, ◌≡◌, ◌≢◌, refl, String, Bool, true, false, List, [], ◌∷◌, ◌++◌, Result, ok, err, length,
  ==_iff, str_eq, eq_iff, arith, contains, rune_count, ◌⊎◌, find_row, some, sym, ◌∙◌, subst, ap,
}
use memgov.Base.Table.{find_row-holds}
use memgov.Schema.{Db}
use memgov.Channel.{read_channel, route_for}
use memgov.Outbox.{TaskView, redact_draft}
use memgov.Outbox.Dispatch.Results.{preview_draft-inv, read_draft-inv}
use memgov.Schema.Channels.{Channel, Route}
use memgov.Schema.Drafts.{Draft}
use memgov.Outbox.Drafts.{max_draft_chars}
use memgov.Outbox.Dispatch.{Preview, preview_draft, is_row, is_pending, task_current}
use memgov.Outbox.Checks.{
  Check, check, all_passed, all_checks, draft_checks, policy_checks, route_check, task_checks,
  current_policy, is_verified,
}

all_passed-append :
    (xs ys : List Check)
    → all_passed (xs ++ ys) ≡ true
    → (all_passed xs ≡ true) × (all_passed ys ≡ true)
unfolding all_passed
all_passed-append [] ys h = (refl, h)
all_passed-append (x ∷ xs) ys h = ground (arith, all_passed-append xs ys)

-- The conditions under which a draft is sent.
pub record IsSendable (route : Result Route) (c : Channel) (d : Draft) (current : Bool)
    : Type 0 where
  pub bound :
      (r : Route) × (route ≡ ok r) × (r.version ≡ d.route_version) × (r.send_policy ≢ "draft_only")
  pub task : (d.job_id ≡ "") ⊎ (current ≡ true)
  pub uncited : length d.citations ≡ 0
  pub short : rune_count d.content ≤ max_draft_chars
  pub pending : contains ("draft" ∷ "ready" ∷ []) d.state ≡ true
  pub verified : is_verified c.capabilities.verified "send" ≡ true

route-passed :
    (route : Result Route) (d : Draft)
    → (route_check route d).passed ≡ true
    → str_eq (current_policy route d) "draft_only" ≡ false
    → (r : Route) × (route ≡ ok r) × (r.version ≡ d.route_version) × (r.send_policy ≢ "draft_only")
unfolding route_check current_policy check
route-passed (err e) d h k = cc
route-passed (ok r) d h k = (
  r,
  refl,
  (==_iff r.version d.route_version).0 h,
  λ e. cc ((eq_iff r.send_policy "draft_only").1 e),
)

policy-passed :
    (policy : String) (v : Bool)
    → all_passed (policy_checks policy v) ≡ true
    → (str_eq policy "draft_only" ≡ false) × (v ≡ true)
unfolding policy_checks all_passed check
policy-passed policy v h = ground arith

draft-passed :
    (d : Draft)
    → all_passed (draft_checks d) ≡ true
    → (length d.citations ≡ 0)
      × (rune_count d.content ≤ max_draft_chars)
      × (contains ("draft" ∷ "ready" ∷ []) d.state ≡ true)
unfolding draft_checks all_passed check
draft-passed d h = ground arith

pub all_passed-IsSendable :
    (route : Result Route) (c : Channel) (d : Draft) (b : Bool)
    → all_passed (all_checks route c d b) ≡ true
    → IsSendable route c d b
unfolding all_checks task_checks all_passed check
all_passed-IsSendable route c d b h =
    let (first, rest) = all_passed-append (route_check route d ∷ task_checks d.job_id b) _ h in
    let (own, policies) = all_passed-append (draft_checks d) _ rest in
    let (uncited, short, pending) = draft-passed d own in
    let (policy, verified) = policy-passed _ _ policies in
    record {
      bound = route-passed route d (ground arith) policy;
      task = ground (arith, eq_iff d.job_id "");
      uncited = uncited;
      short = short;
      pending = pending;
      verified = verified;
    }

-- What a preview that may be sent has read.
pub preview-IsSendable :
    (tasks : TaskView) (db : Db) (id : String) (p : Preview)
    → preview_draft tasks db id ≡ ok p
    → p.sendable ≡ true
    → (r : Draft) × (c : Channel) × (b : Bool) × (find_row (λ d. str_eq d.id id) db.outbox ≡ some r)
      × (p.draft ≡ redact_draft tasks db r)
      × (p.display_digest ≡ r.display_digest)
      × (read_channel db r.channel_id ≡ ok c)
      × (task_current tasks db (redact_draft tasks db r) ≡ ok b)
      × IsSendable (route_for db r.channel_id r.conversation_id) c (redact_draft tasks db r) b
unfolding redact_draft
preview-IsSendable tasks db id p shown sendable =
    let (d, c, b, read, channel, current, same, digest, passed) =
      preview_draft-inv tasks db id p shown in
    let (r, found, e) = read_draft-inv tasks db id d read in
    let all : all_passed (all_checks (route_for db d.channel_id d.conversation_id) c d b) ≡ true =
      sym passed ∙ sendable in
    (
      r,
      c,
      b,
      found,
      same ∙ e,
      digest ∙ ap (λ (x : Draft). x.display_digest) e,
      ap (λ (x : Draft). read_channel db x.channel_id) (sym e) ∙ channel,
      ap (λ (x : Draft). task_current tasks db x) (sym e) ∙ current,
      subst (λ (x : Draft). IsSendable (route_for db x.channel_id x.conversation_id) c x b) e
          (all_passed-IsSendable _ c d b all),
    )

pub preview-pending :
    (tasks : TaskView) (db : Db) (id : String) (p : Preview)
    → preview_draft tasks db id ≡ ok p
    → p.sendable ≡ true
    → (r : Draft) × (find_row (is_row id) db.outbox ≡ some r) × (is_pending id r ≡ true)
unfolding redact_draft is_pending
preview-pending tasks db id p shown sendable =
    let (r, c, b, found, _, _, _, _, s) = preview-IsSendable tasks db id p shown sendable in
    let pending : contains ("draft" ∷ "ready" ∷ []) r.state ≡ true = s.pending in
    (r, found, rw (find_row-holds (is_row id) db.outbox r found, pending) refl)
