-- ===== src/Tasks/Once.antt =====
-- Pending actions and the attempts to execute them, through one change.
use memgov.Base.{
  ◌+◌, ◌≤◌, ◌≡◌, refl, subst, String, Bool, true, false, ◌&&◌, List, [], ◌∷◌, ◌++◌, str_eq, eq_iff,
  arith, contains, count_rows, update_rows, inl, inr, Bool-cases, count_rows-update_fewer,
  count_rows-update_less, count_rows-update_eq, if◌then◌else◌,
}
use memgov.Base.Table.{count_rows-append}
use memgov.Schema.Tasks.{PendingAction, ActionAttempt}
use memgov.Tasks.Confirm.{is_action}
use memgov.Tasks.Actions.{is_action_in}

-- The action may still be claimed, now or after a confirmation.
unfoldable pub is_unstarted : String → PendingAction → Bool
is_unstarted id a = str_eq a.id id && contains ("pending" ∷ "confirmed" ∷ []) a.status

unfoldable pub is_run_of : String → ActionAttempt → Bool
is_run_of id r = str_eq r.action_id id

-- Ids are unique, and an attempt uses an action up.
abbrev pub WellFormed : List PendingAction → List ActionAttempt → Type 0
WellFormed actions runs =
    (id : String)
    → (count_rows (is_action id) actions ≤ 1)
      × (count_rows (is_run_of id) runs + count_rows (is_unstarted id) actions
          ≤ count_rows (is_action id) actions)

-- A change of rows that makes no action claimable that was not.
abbrev pub Quiet : (PendingAction → Bool) → (PendingAction → PendingAction) → Type 0
Quiet q f =
    (a : PendingAction)
    → ((f a).id ≡ a.id)
      × (q a ≡ true
          → contains ("pending" ∷ "confirmed" ∷ []) (f a).status ≡ true
          → contains ("pending" ∷ "confirmed" ∷ []) a.status ≡ true)

pub actions-WellFormed :
    (q : PendingAction → Bool) (f : PendingAction → PendingAction) (actions : List PendingAction)
    (runs : List ActionAttempt)
    → Quiet q f
    → WellFormed actions runs
    → WellFormed (update_rows q f actions) runs
unfolding is_action is_unstarted
actions-WellFormed q f actions runs quiet w id =
    let rows = count_rows-update_eq (is_action id) q f actions (λ a. rw ((quiet a).0) refl) in
    let fewer =
      count_rows-update_fewer (is_unstarted id) q f actions
        (λ a h. let (same, open_) = quiet a in rw same (ground (arith, open_ h))) in
    ground (arith, w id)

pub runs-WellFormed :
    (q : ActionAttempt → Bool) (f : ActionAttempt → ActionAttempt) (actions : List PendingAction)
    (runs : List ActionAttempt)
    → ((r : ActionAttempt) → (f r).action_id ≡ r.action_id)
    → WellFormed actions runs
    → WellFormed actions (update_rows q f runs)
unfolding is_run_of
runs-WellFormed q f actions runs same w id =
    let n = count_rows-update_eq (is_run_of id) q f runs (λ r. rw (same r) refl) in
    ground (arith, w id)

-- A confirmed action is used up by the attempt at it.
module _ (actions : List PendingAction) (runs : List ActionAttempt) (id : String)
    (f : PendingAction → PendingAction) (run : ActionAttempt) (own : run.action_id ≡ id)
    (same : (a : PendingAction) → (f a).id ≡ a.id)
    (used : (a : PendingAction) → contains ("pending" ∷ "confirmed" ∷ []) (f a).status ≡ false)
    (one : count_rows (is_action_in "confirmed" id) actions ≡ 1) where
  started_fewer :
      (x : String)
      → count_rows (is_unstarted x) (update_rows (is_action_in "confirmed" id) f actions)
        ≤ count_rows (is_unstarted x) actions
  unfolding is_unstarted
  started_fewer x =
      count_rows-update_fewer (is_unstarted x) (is_action_in "confirmed" id) f actions
        (λ a h. rw (same a, used a) (ground arith))

  started_less :
      count_rows (is_unstarted id) (update_rows (is_action_in "confirmed" id) f actions) + 1
      ≤ count_rows (is_unstarted id) actions
  unfolding is_unstarted is_action_in
  started_less = rw (← one) (
      count_rows-update_less (is_unstarted id) (is_action_in "confirmed" id) f actions
        (λ a h. (ground (arith, eq_iff a.status "confirmed"), rw (same a, used a) (ground arith))))

  runs_count :
      (x : String)
      → count_rows (is_run_of x) (runs ++ run ∷ [])
        ≡ count_rows (is_run_of x) runs + (if str_eq id x then 1 else 0)
  unfolding is_run_of count_rows
  runs_count x = rw (count_rows-append (is_run_of x) runs (run ∷ [])) (rw own (ground arith))

  pub started-WellFormed :
      WellFormed actions runs
      → WellFormed (update_rows (is_action_in "confirmed" id) f actions) (runs ++ run ∷ [])
  unfolding is_action
  started-WellFormed w x =
      let rows =
        count_rows-update_eq (is_action x) (is_action_in "confirmed" id) f actions
          (λ a. rw (same a) refl) in
      let fewer = started_fewer x in
      let n = runs_count x in
      elim (Bool-cases (str_eq id x)) [
        | inr e ↦ ground (arith, w x)
        | inl e ↦
            let less : count_rows (is_unstarted x)
                    (update_rows (is_action_in "confirmed" id) f actions)
                  + 1
                ≤ count_rows (is_unstarted x) actions =
              subst
                (λ y.
                  count_rows (is_unstarted y) (update_rows (is_action_in "confirmed" id) f actions)
                    + 1
                  ≤ count_rows (is_unstarted y) actions)
                ((eq_iff id x).0 e) started_less in
            ground (arith, w x)
      ]

-- A new action, with an id that no action has.
pub added-WellFormed :
    (a : PendingAction) (actions : List PendingAction) (runs : List ActionAttempt)
    → count_rows (is_action a.id) actions ≡ 0
    → WellFormed actions runs
    → WellFormed (actions ++ a ∷ []) runs
unfolding is_action is_unstarted count_rows
added-WellFormed a actions runs fresh w x =
    let rows = count_rows-append (is_action x) actions (a ∷ []) in
    let open_ = count_rows-append (is_unstarted x) actions (a ∷ []) in
    elim (Bool-cases (str_eq a.id x)) [
      | inr e ↦ ground (arith, w x)
      | inl e ↦
          let none_yet : count_rows (is_action x) actions ≡ 0 =
            subst (λ y. count_rows (is_action y) actions ≡ 0) ((eq_iff a.id x).0 e) fresh in
          ground (arith, w x)
    ]

pub run_at_most_once :
    (actions : List PendingAction) (runs : List ActionAttempt) (id : String)
    → WellFormed actions runs
    → count_rows (is_run_of id) runs ≤ 1
run_at_most_once actions runs id w = ground (arith, w id)
