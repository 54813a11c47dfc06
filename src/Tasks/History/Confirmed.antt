-- ===== src/Tasks/History/Confirmed.antt =====
-- core/runtime.go: the actions that are handed out, and their confirmations.
use memgov.Base.{
  suc, ◌≡◌, refl, sym, ap, ◌∙◌, subst, String, Bool, true, false, List, [], ◌∷◌, ◌++◌, count_rows,
  contains, update_rows, str_eq, eq_iff, inl, inr, Bool-cases, arith, count_rows-update_fewer,
  count_rows-update_eq,
}
use memgov.Base.Table.{count_rows-append}
use memgov.Schema.{Db}
use memgov.Schema.Tasks.{PendingAction, ActionAttempt}
use memgov.Tasks.{mark_action}
use memgov.Tasks.Confirm.{confirm_row, is_pending_action}
use memgov.Tasks.Actions.{is_action_in}
use memgov.Tasks.Acts.{Acts, rest, close, retire, settle, approve, start, propose}
use memgov.Tasks.Once.{is_run_of}
use memgov.Tasks.History.{Call, Outside, step, run}
use memgov.Tasks.History.Steps.{confirms, step-Acts}

-- The action is not confirmed, and nobody has been handed it.
abbrev Untouched : String → List PendingAction → List ActionAttempt → Type 0
Untouched id actions runs =
    (count_rows (is_action_in "confirmed" id) actions ≡ 0) × (count_rows (is_run_of id) runs ≡ 0)

-- A change after which no further row is the confirmed action.
fewer-Untouched :
    (id : String) (q : PendingAction → Bool) (f : PendingAction → PendingAction)
    (u : List PendingAction) (v : List ActionAttempt)
    → ((a : PendingAction)
        → q a ≡ true
        → is_action_in "confirmed" id (f a) ≡ true
        → is_action_in "confirmed" id a ≡ true)
    → Untouched id u v
    → Untouched id (update_rows q f u) v
fewer-Untouched id q f u v less (a, b) =
    let k = count_rows-update_fewer (is_action_in "confirmed" id) q f u less in
    (omega (arith, k, a), b)

started-Untouched :
    (id x : String) (runs : List ActionAttempt) (run : ActionAttempt)
    → run.action_id ≡ x
    → str_eq x id ≡ false
    → count_rows (is_run_of id) runs ≡ 0
    → count_rows (is_run_of id) (runs ++ run ∷ []) ≡ 0
unfolding is_run_of count_rows
started-Untouched id x runs run own other h =
    rw (count_rows-append (is_run_of id) runs (run ∷ []), h) (rw own (rw other refl))

not_confirmed :
    (status : String)
    → contains ("pending" ∷ "confirmed" ∷ []) status ≡ false
    → str_eq status "confirmed" ≡ false
not_confirmed status apart = elim (Bool-cases (str_eq status "confirmed")) [
  | inr e ↦ e
  | inl e ↦ absurd (
      let k : true ≡ false =
        subst (λ x. contains ("pending" ∷ "confirmed" ∷ []) x ≡ false)
          ((eq_iff status "confirmed").0 e) apart in
      cc)
]

Acts-Untouched :
    (may : String → Bool) (id : String) (s : List PendingAction) (r : List ActionAttempt)
    (u : List PendingAction) (v : List ActionAttempt)
    → may id ≡ false
    → Acts may s r u v
    → Untouched id s r
    → Untouched id u v
unfolding mark_action confirm_row is_pending_action is_action_in is_run_of count_rows
Acts-Untouched may id s r _ _ never rest w = w
Acts-Untouched may id s r _ v never (close {u} q status clock apart k) w =
    fewer-Untouched id q (mark_action status clock) u v
      (λ a _ h. ground (arith, not_confirmed status apart))
      (Acts-Untouched may id s r u v never k w)
Acts-Untouched may id s r _ v never (retire {u} q f apart k) w =
    fewer-Untouched id q f u v (λ a _ h. ground (arith, not_confirmed (f a).status (apart a).1))
      (Acts-Untouched may id s r u v never k w)
Acts-Untouched may id s r u _ never (settle {u = w0} {v} q f same k) w =
    let (a, b) = Acts-Untouched may id s r u v never k w in
    (a, count_rows-update_eq (is_run_of id) q f v (λ x. rw (same x) refl) ∙ b)
Acts-Untouched may id s r _ v never (approve {u} x who message clock allowed k) w =
    fewer-Untouched id (is_pending_action x) (confirm_row clock who message) u v
      (λ a h g.
        let p : a.id ≡ x = ground (arith, eq_iff a.id x) in
        let q : a.id ≡ id = ground (arith, eq_iff a.id id) in
        let c : false ≡ true = sym never ∙ ap may (sym q ∙ p) ∙ allowed in cc)
      (Acts-Untouched may id s r u v never k w)
Acts-Untouched may id s r _ _ never (start {u} {v} x clock attempt own one k) w =
    let (a, b) = Acts-Untouched may id s r u v never k w in
    elim (Bool-cases (str_eq x id)) [
      | inl e ↦
          let same : count_rows (is_action_in "confirmed" id) u ≡ 1 =
            subst (λ y. count_rows (is_action_in "confirmed" y) u ≡ 1) ((eq_iff x id).0 e) one in
          let c : 1 ≡ 0 = sym same ∙ a in absurd (omega (arith, c))
      | inr e ↦ (
        (fewer-Untouched id (is_action_in "confirmed" x) (mark_action "executing" clock) u v
            (λ a _ h. ground arith) (a, b)).0,
        started-Untouched id x v attempt own e b,
      )
    ]
Acts-Untouched may id s r _ v never (propose {u} a waits fresh k) w =
    let (p, b) = Acts-Untouched may id s r u v never k w in
    (
      rw (count_rows-append (is_action_in "confirmed" id) u (a ∷ []), p) (rw waits (ground arith)),
      b,
    )

module _ (o : Outside) where
  -- As long as no call confirms an action that is not confirmed yet, nobody is handed it: there is no
  -- row of `runtime_action_attempts` for it, whatever else is called in whatever order.
  pub nothing_runs_unconfirmed :
      (db : Db) (calls : List Call) (id : String)
      → count_rows (is_action_in "confirmed" id) db.runtime_pending_actions ≡ 0
      → count_rows (is_run_of id) db.runtime_action_attempts ≡ 0
      → count_rows (confirms id) calls ≡ 0
      → count_rows (is_run_of id) (run o db calls).runtime_action_attempts ≡ 0
  unfolding run count_rows
  nothing_runs_unconfirmed db [] id open_ fresh never = fresh
  nothing_runs_unconfirmed db (c ∷ calls) id open_ fresh never = elim (Bool-cases (confirms id c)) [
    | inl e ↦
        let k : suc (count_rows (confirms id) calls) ≡ 0 = rw e at never in
        absurd (omega (arith, k))
    | inr e ↦
        let later : count_rows (confirms id) calls ≡ 0 = rw e at never in
        let (a, b) =
          Acts-Untouched (λ x. confirms x c) id _ _ _ _ e (step-Acts o db c) (open_, fresh) in
        nothing_runs_unconfirmed (step o db c) calls id a b later
  ]
