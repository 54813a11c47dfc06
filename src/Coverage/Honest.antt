-- ===== src/Coverage/Honest.antt =====
-- The gap flag against the windows, over any history.
use memgov.Base.{
  ℕ, ◌≡◌, ◌≢◌, refl, ap, sym, subst, ◌∙◌, String, true, false, Option, List, [], ◌∷◌, ◌++◌, ◌⊎◌,
  inl, inr, ok, after-elim, eq_iff, Clock, Bool-cases, arith, count_rows,
}
use memgov.Base.Table.{count_rows-append, count_rows-update_apart}
use memgov.Schema.{Db}
use memgov.Schema.Windows.{Watermark, CoverageWindow}
use memgov.Coverage.{
  read_watermark, record_coverage, next_windows, advance, settle, is_gap, of_conversation,
  resolve_gaps, add_jump, resolves, mark_resolved, window_row, jump_gap, jumps,
}
use memgov.Coverage.Marks.{keys_cases}
use memgov.Coverage.Rewrites.{correct-Keeps, finish-honest}
use memgov.Coverage.Sights.{observe-Keeps}
use memgov.Coverage.History.{
  Call, cover, observe, correct, finish, step, run, windows-after, read-other, settled,
}

-- Without the gap flag no gap is left.
abbrev pub HonestAt : Db → String → String → Type 0
HonestAt db channel conversation =
    (read_watermark db channel conversation).gap_unresolved ≡ false
    → count_rows (is_gap channel conversation) db.coverage_windows ≡ 0

abbrev pub IsHonest : Db → Type 0
IsHonest db = (channel conversation : String) → HonestAt db channel conversation

other_window :
    (c d channel conversation : String) (r : CoverageWindow)
    → (channel ≢ c) ⊎ (conversation ≢ d)
    → of_conversation channel conversation r ≡ true
    → is_gap c d r ≡ false
other_window c d channel conversation r n h = ground (
  arith,
  eq_iff r.channel_id channel,
  eq_iff r.conversation_id conversation,
  eq_iff r.channel_id c,
  eq_iff r.conversation_id d,
)

own_window :
    (channel conversation : String) (r : CoverageWindow)
    → r.channel_id ≡ channel
    → r.conversation_id ≡ conversation
    → of_conversation channel conversation r ≡ true
own_window channel conversation r p q =
    ground (arith, eq_iff r.channel_id channel, eq_iff r.conversation_id conversation)

resolves-own :
    (julianday : String → Option ℕ) (w r : CoverageWindow)
    → resolves julianday w r ≡ true
    → of_conversation w.channel_id w.conversation_id r ≡ true
unfolding resolves
resolves-own julianday w r h = ground arith

module _ (julianday : String → Option ℕ) (clock : Clock) (id gap_id : String) (w : CoverageWindow)
    (current : Watermark) (c d : String) (n : (w.channel_id ≢ c) ⊎ (w.conversation_id ≢ d)) where
  append-count :
      (r : CoverageWindow) (ws : List CoverageWindow)
      → r.channel_id ≡ w.channel_id
      → r.conversation_id ≡ w.conversation_id
      → count_rows (is_gap c d) (ws ++ r ∷ []) ≡ count_rows (is_gap c d) ws
  unfolding count_rows
  append-count r ws p q =
      count_rows-append (is_gap c d) ws (r ∷ [])
      ∙ rw (other_window c d w.channel_id w.conversation_id r n (own_window _ _ r p q))
          (omega arith)

  resolve-count :
      (ws : List CoverageWindow)
      → count_rows (is_gap c d) (resolve_gaps julianday clock w ws) ≡ count_rows (is_gap c d) ws
  unfolding resolve_gaps mark_resolved
  resolve-count ws = elim (Bool-cases w.complete) [
    | inl e ↦ simp e (
        count_rows-update_apart (is_gap c d) (resolves julianday w) (mark_resolved clock) ws (λ r h.
          let k = other_window c d _ _ r n (resolves-own julianday w r h) in
          (k, other_window c d _ _ (mark_resolved clock r) n (resolves-own julianday w r h))))
    | inr e ↦ rw e
  ]

  -- Calls on one conversation leave the gaps of the others.
  other-count :
      (ws : List CoverageWindow)
      → count_rows (is_gap c d) (next_windows julianday clock id gap_id w current ws)
        ≡ count_rows (is_gap c d) ws
  unfolding next_windows add_jump
  other-count ws = elim (Bool-cases (jumps w current)) [
    | inl e ↦ rw e (
        append-count (jump_gap clock gap_id w current.covered_until) _ (unfold jump_gap in refl)
          (unfold jump_gap in refl)
        ∙ (resolve-count _ ∙ stored-count))
    | inr e ↦ rw e (resolve-count _ ∙ stored-count)
  ]
    where
      stored-count :
          count_rows (is_gap c d) (ws ++ window_row clock id w ∷ []) ≡ count_rows (is_gap c d) ws
      stored-count =
          append-count (window_row clock id w) ws (unfold window_row in refl)
            (unfold window_row in refl)

-- The flag that a call writes is off only where no gap is left.
settled-gap :
    (clock : Clock) (w : CoverageWindow) (ws : List CoverageWindow) (current : Watermark)
    → (settle clock w ws (advance w current)).gap_unresolved ≡ false
    → count_rows (is_gap w.channel_id w.conversation_id) ws ≡ 0
unfolding settle advance
settled-gap clock w ws current h = ground arith

module _ (julianday : String → Option ℕ) where
  cover-IsHonest :
      (clock : Clock) (id gap_id : String) (w : CoverageWindow) (db : Db) (next : Watermark)
      (db' : Db)
      → IsHonest db
      → record_coverage julianday clock id gap_id w db ≡ ok (next, db')
      → IsHonest db'
  cover-IsHonest clock id gap_id w db next db' v h c d =
      elim (keys_cases w.channel_id c w.conversation_id d) [
        | inl (p, q) ↦
            subst (λ x. HonestAt db' x d) p
              (subst (HonestAt db' w.channel_id) q (λ off.
                let (_, flag, _) = settled julianday clock id gap_id w db next db' h in
                ap (count_rows (is_gap w.channel_id w.conversation_id))
                  (windows-after julianday clock id gap_id w db next db' h)
                ∙ settled-gap clock w _ _ (sym flag ∙ off)))
        | inr n ↦ λ off.
            let e = read-other julianday clock id gap_id w db next db' h c d n in
            ap (count_rows (is_gap c d)) (windows-after julianday clock id gap_id w db next db' h)
            ∙ other-count julianday clock id gap_id w _ c d n db.coverage_windows
            ∙ v c d (sym (ap (λ (x : Watermark). x.gap_unresolved) e) ∙ off)
      ]

  step-IsHonest : (db : Db) (call : Call) → IsHonest db → IsHonest (step julianday db call)
  step-IsHonest db (cover clock id gap_id w) v c d =
      after-elim IsHonest db (record_coverage julianday clock id gap_id w db) v
        (λ next db' h. cover-IsHonest clock id gap_id w db next db' v h) c d
  step-IsHonest db (observe clock channel conversation sent_at) v c d =
      let (ws, keeps) = observe-Keeps clock channel conversation sent_at db c d in
      λ off. ap (count_rows (is_gap c d)) ws ∙ v c d (sym keeps.0.1 ∙ off)
  step-IsHonest db (correct clock channel e id stored) v c d =
      let (ws, keeps) = correct-Keeps clock channel e id stored db c d in
      λ off. ap (count_rows (is_gap c d)) ws ∙ v c d (sym keeps.1 ∙ off)
  step-IsHonest db (finish channel conversation start end) v c d =
      finish-honest channel conversation start end db c d (v c d)

  -- From a store in which a conversation whose gap flag is off has no unresolved gap (such as the
  -- empty one), that stays so over any sequence of RecordCoverage and ObserveMessage calls,
  -- corrections of message times and ends of imports.
  pub run-IsHonest : (db : Db) (calls : List Call) → IsHonest db → IsHonest (run julianday db calls)
  unfolding run
  run-IsHonest db [] v = v
  run-IsHonest db (c ∷ cs) v = run-IsHonest (step julianday db c) cs (step-IsHonest db c v)
