-- ===== src/Coverage/History.antt =====
-- Histories of all that writes coverage, over all conversations: RecordCoverage, ObserveMessage, the
-- correction of a message's time (whatever the message), and the end of an import.
use memgov.Base.{
  ℕ, ◌≡◌, ◌≢◌, ap, subst, sym, ◌∙◌, String, true, Option, List, [], ◌∷◌, ◌⊎◌, inl, inr, ok, after,
  after-elim, Clock, Lt, arith,
}
use memgov.Schema.{Db}
use memgov.Schema.Channels.{Channel}
use memgov.Schema.Windows.{Watermark, CoverageWindow}
use memgov.Coverage.{
  read_watermark, observe_message, record_coverage, next_windows, advance, settle, write_watermark,
}
use memgov.Coverage.Range.{
  Covers, Tracking, Tracking-eq, next_windows-keeps, next_windows-adds, advance-Covers,
  advance-first,
}
use memgov.Coverage.Marks.{read_watermark-keys, read-write_at, read-write_other, keys_cases}
use memgov.Coverage.Sights.{observe-Keeps}
use memgov.Coverage.Rewrites.{finish_import, correct-Keeps, finish-covered, finish-keeps}
use memgov.Intake.{Event}
use memgov.Intake.Receive.{correct_time}

pub data Call : Type 0 where
  cover : Clock → String → String → CoverageWindow → Call
  observe : Clock → String → String → String → Call
  correct : Clock → Channel → Event → String → String → Call
  finish : String → String → String → String → Call

module _ (julianday : String → Option ℕ) where
  abbrev pub step : Db → Call → Db
  step db (cover clock id gap_id w) = after db (record_coverage julianday clock id gap_id w db)
  step db (observe clock channel conversation sent_at) =
      after db (observe_message clock channel conversation sent_at db)
  step db (correct clock channel e id stored) = correct_time clock channel e id stored db
  step db (finish channel conversation start end) = finish_import channel conversation start end db

  unfoldable pub run : Db → List Call → Db
  run db [] = db
  run db (c ∷ cs) = run (step db c) cs

  -- What a successful RecordCoverage did.
  record_coverage-inv :
      (clock : Clock) (id gap_id : String) (w : CoverageWindow) (db : Db) (next : Watermark)
      (db' : Db)
      → record_coverage julianday clock id gap_id w db ≡ ok (next, db')
      → let current = read_watermark db w.channel_id w.conversation_id in
        let windows = next_windows julianday clock id gap_id w current db.coverage_windows in
        Lt w.start_at w.end_at
        × (next ≡ settle clock w windows (advance w current))
        × (db' ≡ write_watermark next (record db { coverage_windows = windows }))
  unfolding record_coverage
  record_coverage-inv clock id gap_id w db next db' h = ground arith

  settled-keys :
      (clock : Clock) (w : CoverageWindow) (ws : List CoverageWindow) (v : Watermark)
      → ((settle clock w ws (advance w v)).channel_id ≡ v.channel_id)
        × ((settle clock w ws (advance w v)).conversation_id ≡ v.conversation_id)
  unfolding settle advance
  settled-keys clock w ws v = ground arith

  module _ (clock : Clock) (id gap_id : String) (w : CoverageWindow) (db : Db) (next : Watermark)
      (db' : Db) (h : record_coverage julianday clock id gap_id w db ≡ ok (next, db')) where
    abbrev current : Watermark
    current = read_watermark db w.channel_id w.conversation_id

    abbrev windows : List CoverageWindow
    windows = next_windows julianday clock id gap_id w current db.coverage_windows

    pub inv :
        Lt w.start_at w.end_at
        × (next ≡ settle clock w windows (advance w current))
        × (db' ≡ write_watermark next (record db { coverage_windows = windows }))
    inv = record_coverage-inv clock id gap_id w db next db' h

    keys : (next.channel_id ≡ w.channel_id) × (next.conversation_id ≡ w.conversation_id)
    keys =
        let (a, b) = read_watermark-keys db w.channel_id w.conversation_id in
        let (c, d) = settled-keys clock w windows current in
        (
          ap (λ (x : Watermark). x.channel_id) inv.1 ∙ c ∙ a,
          ap (λ (x : Watermark). x.conversation_id) inv.1 ∙ d ∙ b,
        )

    pub windows-after : db'.coverage_windows ≡ windows
    unfolding write_watermark
    windows-after = ap (λ (x : Db). x.coverage_windows) inv.2

    -- Reading back what the call wrote.
    read-same :
        (read_watermark db' w.channel_id w.conversation_id).covered_until ≡ next.covered_until
    read-same = rw inv.2 (read-write_at next _ _ _ keys.0 keys.1).0

    pub read-other :
        (c d : String)
        → (w.channel_id ≢ c) ⊎ (w.conversation_id ≢ d)
        → read_watermark db' c d ≡ read_watermark db c d
    unfolding read_watermark
    read-other c d n = rw inv.2 (read-write_other next _ c d (rw (keys.0, keys.1) n))

    -- `covered_until` after the call is what `advance` made of it.
    pub covered-same :
        (read_watermark db' w.channel_id w.conversation_id).covered_until
        ≡ (advance w current).covered_until
    unfolding settle
    covered-same = read-same ∙ ap (λ (x : Watermark). x.covered_until) inv.1

    pub settled :
        let v = read_watermark db' w.channel_id w.conversation_id in
        let n = settle clock w windows (advance w current) in
        (v.covered_until ≡ n.covered_until)
        × (v.gap_unresolved ≡ n.gap_unresolved)
        × (v.observed_at ≡ n.observed_at)
    settled =
        let (a, b, c) =
          read-write_at next (record db { coverage_windows = windows }) _ _ keys.0 keys.1 in
        rw inv.2 (
          a ∙ ap (λ (x : Watermark). x.covered_until) inv.1,
          b ∙ ap (λ (x : Watermark). x.gap_unresolved) inv.1,
          c ∙ ap (λ (x : Watermark). x.observed_at) inv.1,
        )

  -- A range of the conversation that is not empty, ends where `covered_until` stands, and was read.
  abbrev pub Tracked : Db → String → String → String → Type 0
  Tracked db channel conversation start =
      Tracking db.coverage_windows channel conversation start
        (read_watermark db channel conversation).covered_until

  cover-Tracked :
      (clock : Clock) (id gap_id : String) (w : CoverageWindow) (db : Db) (next : Watermark)
      (db' : Db)
      → record_coverage julianday clock id gap_id w db ≡ ok (next, db')
      → (channel conversation start : String) → Tracked db channel conversation start
      → Tracked db' channel conversation start
  cover-Tracked clock id gap_id w db next db' h channel conversation start (old, pos) =
      elim (keys_cases w.channel_id channel w.conversation_id conversation) [
        | inl (p, q) ↦
            subst (λ c. Tracked db' c conversation start) p
              (subst (λ d. Tracked db' w.channel_id d start) q
                (Tracking-eq _ _ _ (windows-after clock id gap_id w db next db' h)
                  (covered-same clock id gap_id w db next db' h)
                  (advance-Covers db.coverage_windows _ w.channel_id w.conversation_id start w
                    (read_watermark db w.channel_id w.conversation_id)
                    (λ t.
                      next_windows-keeps julianday clock id gap_id w _ w.channel_id
                        w.conversation_id t db.coverage_windows)
                    (λ e t a b.
                      next_windows-adds julianday clock id gap_id w _ t db.coverage_windows e a b)
                    (rw (p, q) pos) (rw (p, q) old))))
        | inr n ↦
            Tracking-eq _ _ _ (windows-after clock id gap_id w db next db' h)
              (ap (λ (x : Watermark). x.covered_until)
                (read-other clock id gap_id w db next db' h channel conversation n))
              (
                (λ t a b.
                    next_windows-keeps julianday clock id gap_id w _ channel conversation t
                      db.coverage_windows (old t a b)),
                pos,
              )
      ]

  step-Tracked :
      (db : Db) (call : Call) (channel conversation start : String)
      → Tracked db channel conversation start
      → Tracked (step db call) channel conversation start
  step-Tracked db (cover clock id gap_id w) channel conversation start h =
      after-elim (λ d. Tracked d channel conversation start) db _ h
        λ next db' e. cover-Tracked clock id gap_id w db next db' e channel conversation start h
  step-Tracked db (observe clock c d sent_at) channel conversation start h =
      let (same, keeps) = observe-Keeps clock c d sent_at db channel conversation in
      Tracking-eq _ _ _ same keeps.0.0 h
  step-Tracked db (correct clock c e id stored) channel conversation start h =
      let (same, keeps) = correct-Keeps clock c e id stored db channel conversation in
      Tracking-eq _ _ _ same keeps.0 h
  step-Tracked db (finish c d from end) channel conversation start (old, pos) =
      subst (Tracking (finish_import c d from end db).coverage_windows channel conversation start)
        (sym (finish-covered c d from end db channel conversation))
        ((λ t a b. finish-keeps c d from end db channel conversation t (old t a b)), pos)

  run-Tracked :
      (db : Db) (calls : List Call) (channel conversation start : String)
      → Tracked db channel conversation start
      → Tracked (run db calls) channel conversation start
  unfolding run
  run-Tracked db [] channel conversation start h = h
  run-Tracked db (c ∷ cs) channel conversation start h =
      run-Tracked (step db c) cs channel conversation start
        (step-Tracked db c channel conversation start h)

  -- Once a conversation's first complete window is recorded, every time from that window's start up
  -- to `covered_until` lies in a window that was read completely, after any further RecordCoverage
  -- and ObserveMessage calls, corrections of message times and ends of imports.
  pub covered_range_was_read :
      (clock : Clock) (id gap_id : String) (w : CoverageWindow) (db : Db) (next : Watermark)
      (db' : Db) (calls : List Call)
      → w.complete ≡ true
      → (read_watermark db w.channel_id w.conversation_id).covered_until ≡ ""
      → record_coverage julianday clock id gap_id w db ≡ ok (next, db')
      → let covered =
          (read_watermark (run db' calls) w.channel_id w.conversation_id).covered_until in
        Covers (run db' calls).coverage_windows w.channel_id w.conversation_id w.start_at covered
        × Lt w.start_at covered
  covered_range_was_read clock id gap_id w db next db' calls whole blank h =
      let e =
        covered-same clock id gap_id w db next db' h
        ∙ advance-first w (read_watermark db w.channel_id w.conversation_id) whole blank in
      run-Tracked db' calls w.channel_id w.conversation_id w.start_at (
        Tracking-eq _ _ _ (windows-after clock id gap_id w db next db' h) e (
          (λ t a b.
              next_windows-adds julianday clock id gap_id w _ t db.coverage_windows whole a b),
          (inv clock id gap_id w db next db' h).0,
        ))
