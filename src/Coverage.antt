-- ===== src/Coverage.antt =====
-- core/coverage.go: what was seen of a conversation, and what was read completely.
-- NewID is an argument, and SQLite's julianday a parameter: `none` is its NULL, and a comparison
-- with NULL fails.
pub mod Sights
pub mod Range
pub mod Rewrites
pub mod Honest
pub mod Backfill
pub mod Tests
pub mod History
pub mod Marks
use memgov.Base.{
  ℕ, suc, ◌+◌, ◌≤◌, String, Bool, true, false, not, ◌&&◌, ◌||◌, Option, none, some, List, [], ◌∷◌,
  ◌++◌, Result, ok, err, ◌>>=◌, ◌>>◌, fail_if, or_new, invalid_input, find_row, update_rows,
  count_rows, upsert_row, str_eq, str_lt, ltb, leb, concat, if◌then◌else◌, Clock, now,
}
use memgov.Schema.{Db}
use memgov.Schema.Windows.{Watermark, CoverageWindow}

abbrev pub at_conversation : String → String → Watermark → Bool
at_conversation channel conversation w =
    str_eq w.channel_id channel && str_eq w.conversation_id conversation

abbrev pub of_conversation : String → String → CoverageWindow → Bool
of_conversation channel conversation w =
    str_eq w.channel_id channel && str_eq w.conversation_id conversation

pub no_watermark : String → String → Watermark
no_watermark channel conversation = record {
  channel_id = channel;
  conversation_id = conversation;
  observed_at = "";
  covered_until = "";
  gap_unresolved = false;
  updated_at = "";
}

unfoldable pub read_watermark : Db → String → String → Watermark
unfolding no_watermark find_row
read_watermark db channel conversation =
    or_new (find_row (at_conversation channel conversation) db.channel_watermarks)
      (no_watermark channel conversation)

-- SQLite's max on texts.
pub str_max : String → String → String
str_max a b = if str_lt a b then b else a

pub see : Clock → String → Watermark → Watermark
see clock sent_at w = record w {
  observed_at = str_max w.observed_at sent_at;
  updated_at = now clock;
}

pub observe_message : Clock → String → String → String → Db → Result (Unit {0} × Db)
observe_message clock channel conversation sent_at db =
    if str_eq sent_at ""
    then ok (tt, db)
    else ok (
      tt,
      record db {
        channel_watermarks =
            upsert_row (at_conversation channel conversation)
              (record (no_watermark channel conversation) {
                observed_at = sent_at;
                updated_at = now clock;
              })
              (see clock sent_at) db.channel_watermarks;
      },
    )

-- An incomplete window that no later one has resolved.
abbrev pub is_gap : String → String → CoverageWindow → Bool
is_gap channel conversation w =
    of_conversation channel conversation w && not w.complete && str_eq w.resolved_at ""

module _ (julianday : String → Option ℕ) where
  -- julianday(a) <= julianday(b)
  pub julian_le : String → String → Bool
  julian_le a b = elim (julianday a) [
    | none ↦ false
    | some m ↦ elim (julianday b) [ none ↦ false | some n ↦ leb m n ]
  ]

  -- A gap within a window.
  pub resolves : CoverageWindow → CoverageWindow → Bool
  unfolding julian_le
  resolves w r =
      is_gap w.channel_id w.conversation_id r
      && julian_le w.start_at r.start_at
      && julian_le r.end_at w.end_at

pub mark_resolved : Clock → CoverageWindow → CoverageWindow
mark_resolved clock r = record r { resolved_at = now clock }

-- The window as it is stored: with an ID, and with a gap text where it is incomplete.
pub window_row : Clock → String → CoverageWindow → CoverageWindow
window_row clock id w = record w {
  id = if str_eq w.id "" then id else w.id;
  gap =
      if not w.complete && str_eq w.gap ""
      then concat
          ("range " ∷ w.start_at ∷ " to " ∷ w.end_at ∷ " was not fully read: " ∷ w.stop_reason ∷ [])
      else w.gap;
  created_at = now clock;
  resolved_at = "";
}

-- The range between what is covered and a window that starts behind it.
pub jump_gap : Clock → String → CoverageWindow → String → CoverageWindow
jump_gap clock id w covered = record {
  id = id;
  channel_id = w.channel_id;
  conversation_id = w.conversation_id;
  start_at = covered;
  end_at = w.start_at;
  complete = false;
  messages = 0;
  stop_reason = "window_started_after_covered_range";
  cursor = "";
  gap = concat ("range " ∷ covered ∷ " to " ∷ w.start_at ∷ " was never read" ∷ []);
  created_at = now clock;
  resolved_at = "";
}

-- A complete window that starts behind the covered range.
pub jumps : CoverageWindow → Watermark → Bool
jumps w current =
    w.complete && not (str_eq current.covered_until "") && str_lt current.covered_until w.start_at

-- The `switch` of RecordCoverage on the watermark.
pub advance : CoverageWindow → Watermark → Watermark
advance w current =
    if not w.complete
    then record current { gap_unresolved = true }
    else if str_eq current.covered_until ""
    then record current { covered_until = w.end_at }
    else if not (str_lt current.covered_until w.start_at)
    then (if str_lt current.covered_until w.end_at
        then record current { covered_until = w.end_at }
        else current)
    else record current { gap_unresolved = true }

-- What RecordCoverage writes back: the gap flag is counted anew after a complete window, and
-- whatever is covered has been observed.
pub settle : Clock → CoverageWindow → List CoverageWindow → Watermark → Watermark
settle clock w windows next = record next {
  observed_at =
      if str_lt next.observed_at next.covered_until then next.covered_until else next.observed_at;
  gap_unresolved =
      if w.complete
      then ltb 0 (count_rows (is_gap w.channel_id w.conversation_id) windows)
      else next.gap_unresolved;
  updated_at = now clock;
}

pub merge_watermark : Watermark → Watermark → Watermark
merge_watermark next w = record w {
  observed_at = next.observed_at;
  covered_until = next.covered_until;
  gap_unresolved = next.gap_unresolved;
  updated_at = next.updated_at;
}

pub write_watermark : Watermark → Db → Db
write_watermark next db = record db {
  channel_watermarks =
      upsert_row (at_conversation next.channel_id next.conversation_id) next (merge_watermark next)
        db.channel_watermarks;
}

pub bad_window : CoverageWindow → Bool
bad_window w =
    str_eq w.channel_id ""
    || str_eq w.conversation_id ""
    || str_eq w.start_at ""
    || str_eq w.end_at ""

-- A complete window resolves the gaps that lie within it.
pub resolve_gaps :
    (String → Option ℕ) → Clock → CoverageWindow → List CoverageWindow → List CoverageWindow
resolve_gaps julianday clock w windows =
    if w.complete then update_rows (resolves julianday w) (mark_resolved clock) windows else windows

-- The range that a window leaves unread behind what is covered becomes a gap of its own.
pub add_jump :
    Clock → String → CoverageWindow → Watermark → List CoverageWindow → List CoverageWindow
add_jump clock gap_id w current windows =
    if jumps w current
    then windows ++ jump_gap clock gap_id w current.covered_until ∷ []
    else windows

module _ (julianday : String → Option ℕ) where
  -- The windows after a call.
  pub next_windows :
      Clock
      → String
      → String
      → CoverageWindow
      → Watermark
      → List CoverageWindow
      → List CoverageWindow
  next_windows clock id gap_id w current windows =
      add_jump clock gap_id w current
        (resolve_gaps julianday clock w (windows ++ window_row clock id w ∷ []))

  pub record_coverage : Clock → String → String → CoverageWindow → Db → Result (Watermark × Db)
  record_coverage clock id gap_id w db = do
    fail_if (bad_window w) invalid_input
    fail_if (not (str_lt w.start_at w.end_at)) invalid_input
    fail_if (not w.complete && str_eq w.stop_reason "") invalid_input
    let current = read_watermark db w.channel_id w.conversation_id
    let windows = next_windows clock id gap_id w current db.coverage_windows
    let next = settle clock w windows (advance w current)
    ok (next, write_watermark next (record db { coverage_windows = windows }))

-- The advice of CoverageReport.
pub data Action : Type 0 where
  rerun_gaps establish overlap_next : Action

unfoldable pub next_coverage_action : Watermark → ℕ → Action
next_coverage_action w gaps =
    if w.gap_unresolved || ltb 0 gaps
    then rerun_gaps
    else if str_eq w.covered_until ""
    then establish
    else overlap_next
