-- ===== src/Coverage/Tests.antt =====
-- Coverage on concrete windows.
use memgov.Base.{
  some, false, eq_iff, ◌≢◌, sym, ◌∙◌, str_eq, if◌then◌else◌, ℕ, ◌*◌, ◌≡◌, refl, String, Bool, true,
  Option, none, List, [], ◌∷◌, ok, Clock, second, Lt, count_rows, upsert_row, find_row, update_rows,
}
use memgov.Schema.{Db, empty}
use memgov.Schema.Windows.{Watermark, CoverageWindow}
use memgov.Schema.Samples.{clock_at}
use memgov.Coverage.{
  read_watermark, record_coverage, settle, advance, next_windows, write_watermark, bad_window,
  jumps, resolve_gaps, add_jump, merge_watermark, window_row, no_watermark, resolves, julian_le,
  jump_gap, mark_resolved,
}
use memgov.Coverage.Range.{Covers}
use memgov.Coverage.Backfill.{
  next_window, span_of, next_window-resumes, covered_at, IsNext, latest, resume,
}
use memgov.Coverage.History.{Call, cover, observe, finish, run, covered_range_was_read}
use memgov.Coverage.Honest.{IsHonest, run-IsHonest}

abbrev clock : Clock
clock = clock_at (50 * second)

abbrev no_julianday : String → Option ℕ
no_julianday t = none

abbrev window : String → String → Bool → CoverageWindow
window start end whole = record {
  id = "";
  channel_id = "c1";
  conversation_id = "g1";
  start_at = start;
  end_at = end;
  complete = whole;
  messages = 3;
  stop_reason = "page limit";
  cursor = "";
  gap = "";
  created_at = "";
  resolved_at = "";
}

abbrev first_windows : List CoverageWindow
first_windows =
    next_windows no_julianday clock "w1" "w2" (window "10" "20" true)
      (read_watermark empty "c1" "g1") []

abbrev first_mark : Watermark
first_mark =
    settle clock (window "10" "20" true) first_windows
      (advance (window "10" "20" true) (read_watermark empty "c1" "g1"))

abbrev first_db : Db
first_db = write_watermark first_mark (record empty { coverage_windows = first_windows })

record_first :
    record_coverage no_julianday clock "w1" "w2" (window "10" "20" true) empty
    ≡ ok (first_mark, first_db)
unfolding record_coverage bad_window empty
record_first = refl

-- A window further on leaves a hole; the one that fills it moves the watermark on.
abbrev calls : List Call
calls =
    cover clock "w3" "w4" (window "30" "40" true)
    ∷ cover clock "w5" "w6" (window "15" "30" true)
    ∷ observe clock "c1" "g1" "45"
    ∷ finish "c1" "g1" "15" "30"
    ∷ []

no_mark : (read_watermark empty "c1" "g1").covered_until ≡ ""
unfolding read_watermark empty
no_mark = refl

covered_range_was_read_example :
    Covers
      (run no_julianday first_db calls).coverage_windows
      "c1"
      "g1"
      "10"
      (read_watermark (run no_julianday first_db calls) "c1" "g1").covered_until
    × Lt "10" (read_watermark (run no_julianday first_db calls) "c1" "g1").covered_until
covered_range_was_read_example =
    covered_range_was_read no_julianday clock "w1" "w2" (window "10" "20" true) empty first_mark
      first_db calls refl no_mark record_first

empty-IsHonest : IsHonest empty
unfolding read_watermark empty count_rows
empty-IsHonest channel conversation off = refl

run-IsHonest_example :
    IsHonest (run no_julianday empty (cover clock "w1" "w2" (window "10" "20" true) ∷ calls))
run-IsHonest_example =
    run-IsHonest no_julianday empty (cover clock "w1" "w2" (window "10" "20" true) ∷ calls)
      empty-IsHonest

-- The hole is skipped over by no watermark, and is a gap until it is read.
jump_is_a_gap :
    ((read_watermark
        (run no_julianday first_db (cover clock "w3" "w4" (window "30" "40" true) ∷ []))
        "c1"
        "g1").covered_until
      ≡ "20")
    × ((read_watermark
          (run no_julianday first_db (cover clock "w3" "w4" (window "30" "40" true) ∷ []))
          "c1"
          "g1").gap_unresolved
        ≡ true)
unfolding run read_watermark record_coverage next_windows settle advance bad_window jumps
    write_watermark merge_watermark resolve_gaps add_jump empty count_rows upsert_row find_row
    update_rows no_watermark resolves julian_le window_row jump_gap mark_resolved
jump_is_a_gap = (refl, refl)

-- The texts of the tests are numbers of seconds.
abbrev parse : String → Option ℕ
parse t = if str_eq t "20" then some (20 * second) else none

covered_to_20 : (read_watermark first_db "c1" "g1").covered_until ≡ "20"
unfolding read_watermark write_watermark upsert_row find_row empty settle advance no_watermark
covered_to_20 = refl

not_blank : (read_watermark first_db "c1" "g1").covered_until ≢ ""
not_blank h = let e : false ≡ true = (eq_iff "20" "").1 (sym covered_to_20 ∙ h) in cc

covered_at_20 : covered_at parse first_db "c1" "g1" ≡ some (20 * second)
unfolding covered_at read_watermark write_watermark upsert_row find_row empty settle advance
    no_watermark
covered_at_20 = refl

next_window-resumes_example :
    IsNext
      (50 * second)
      (span_of (10 * second))
      (2 * second)
      (covered_at parse first_db "c1" "g1")
      (next_window parse first_db "c1" "g1" (50 * second) (10 * second) (2 * second))
next_window-resumes_example =
    next_window-resumes parse first_db "c1" "g1" (50 * second) (10 * second) (2 * second)

-- That is the window from second 18 to second 28.
next_of_20 :
    next_window parse first_db "c1" "g1" (50 * second) (10 * second) (2 * second)
    ≡ record { start = 18 * second; stop = 28 * second }
unfolding next_window read_watermark write_watermark upsert_row find_row empty settle advance
    no_watermark latest resume span_of
next_of_20 = refl
