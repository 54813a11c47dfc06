-- ===== src/Coverage/Rewrites.antt =====
-- core/history_import.go and core/history_time_recovery.go: what else they write of the coverage.
use memgov.Base.{
  ◌≡◌, ◌≢◌, refl, String, Bool, true, false, not, ◌&&◌, List, ◌⊎◌, inl, inr, or_new, find_row,
  has_row, update_rows, count_rows, str_eq, Clock, arith, Bool-cases, Option-cases, Any,
}
use memgov.Base.Table.{find_row-update, find_row-holds}
use memgov.Base.Counts.{count_rows-update_fewer, count_rows-weaken}
use memgov.Base.Lists.{Any-update}
use memgov.Schema.{Db}
use memgov.Schema.Channels.{Channel}
use memgov.Schema.Windows.{Watermark, CoverageWindow}
use memgov.Intake.{Event}
use memgov.Intake.Receive.{correct_time}
use memgov.Coverage.{read_watermark, no_watermark, at_conversation, of_conversation, is_gap}
use memgov.Coverage.Range.{Reads}
use memgov.Coverage.Marks.{keys_cases, other_keys}
use memgov.Coverage.Sights.{SameCover}

-- An earlier partial attempt at the same window.
abbrev pub is_partial : String → String → String → String → CoverageWindow → Bool
is_partial channel conversation start end w =
    of_conversation channel conversation w
    && str_eq w.start_at start
    && str_eq w.end_at end
    && not w.complete

unfoldable pub traversed : CoverageWindow → CoverageWindow
traversed w = record w {
  complete = true;
  gap = "";
  stop_reason = "resolved_by_import";
  cursor = "";
}

abbrev pub incomplete : String → String → CoverageWindow → Bool
incomplete channel conversation w = of_conversation channel conversation w && not w.complete

-- The end of an import that went through its whole window, after RecordCoverage.
unfoldable pub finish_import : String → String → String → String → Db → Db
finish_import channel conversation start end db =
    let windows =
      update_rows (is_partial channel conversation start end) traversed db.coverage_windows in
    record db {
      coverage_windows = windows;
      channel_watermarks =
          update_rows (at_conversation channel conversation)
            (λ w. record w { gap_unresolved = has_row (incomplete channel conversation) windows })
            db.channel_watermarks;
    }

module _ (q : Watermark → Bool) (f : Watermark → Watermark) (t : List Watermark) (c d : String)
    (same : (r : Watermark) → at_conversation c d (f r) ≡ at_conversation c d r) where
  update-field {ℓ} :
      {A : Type ℓ} (g : Watermark → A)
      → ((r : Watermark) → g (f r) ≡ g r)
      → g (or_new (find_row (at_conversation c d) (update_rows q f t)) (no_watermark c d))
        ≡ g (or_new (find_row (at_conversation c d) t) (no_watermark c d))
  update-field g k = elim (Option-cases (find_row (at_conversation c d) t)) [
    | inl e ↦ rw (find_row-update (at_conversation c d) q f t same, e) refl
    | inr (r, e) ↦
        rw (find_row-update (at_conversation c d) q f t same, e)
          (elim (Bool-cases (q r)) [ inl h ↦ rw h (k r) | inr h ↦ rw h refl ])
  ]

-- The correction of a time moves `observed_at` alone.
pub correct-Keeps :
    (clock : Clock) (channel : Channel) (e : Event) (id stored : String) (db : Db) (c d : String)
    → let db' = correct_time clock channel e id stored db in
      (db'.coverage_windows ≡ db.coverage_windows)
      × SameCover (read_watermark db' c d) (read_watermark db c d)
unfolding correct_time read_watermark
correct-Keeps clock channel e id stored db c d = (
  refl,
  (
    update-field _ _ db.channel_watermarks c d (λ r. refl) (λ w. w.covered_until) (λ r. refl),
    update-field _ _ db.channel_watermarks c d (λ r. refl) (λ w. w.gap_unresolved) (λ r. refl),
  ),
)

module _ (channel conversation start end : String) (db : Db) where
  abbrev finished : Db
  finished = finish_import channel conversation start end db

  pub finish-covered :
      (c d : String)
      → (read_watermark finished c d).covered_until ≡ (read_watermark db c d).covered_until
  unfolding finish_import read_watermark
  finish-covered c d =
      update-field _ _ db.channel_watermarks c d (λ r. refl) (λ w. w.covered_until) (λ r. refl)

  traversed-Reads :
      (c d t : String) (w : CoverageWindow) → Reads c d t w → Reads c d t (traversed w)
  unfolding traversed
  traversed-Reads c d t w k = record {
    whole = refl;
    same_channel = k.same_channel;
    same_conversation = k.same_conversation;
    from_start = k.from_start;
    before_end = k.before_end;
  }

  -- What was read stays read.
  pub finish-keeps :
      (c d t : String)
      → Any (Reads c d t) db.coverage_windows
      → Any (Reads c d t) finished.coverage_windows
  unfolding finish_import
  finish-keeps c d t h =
      Any-update (Reads c d t) (is_partial channel conversation start end) traversed
        db.coverage_windows (traversed-Reads c d t) h

  -- No gap is added.
  finish-fewer :
      (c d : String)
      → count_rows (is_gap c d) db.coverage_windows ≡ 0
      → count_rows (is_gap c d) finished.coverage_windows ≡ 0
  unfolding finish_import traversed
  finish-fewer c d h = omega (
    arith,
    h,
    count_rows-update_fewer (is_gap c d) (is_partial channel conversation start end) traversed
        db.coverage_windows (λ r _ k. ground arith),
  )

  -- The flag of the conversation is what its windows say, where it has a row.
  finish-own :
      ((read_watermark finished channel conversation).gap_unresolved
        ≡ (read_watermark db channel conversation).gap_unresolved)
      ⊎ ((read_watermark finished channel conversation).gap_unresolved
          ≡ has_row (incomplete channel conversation) finished.coverage_windows)
  unfolding finish_import read_watermark
  finish-own =
      let at = at_conversation channel conversation in
      let flag : Watermark → Watermark = λ w. record w {
        gap_unresolved = has_row (incomplete channel conversation) finished.coverage_windows;
      } in
      let updated = find_row-update at at flag db.channel_watermarks (λ r. refl) in
      elim (Option-cases (find_row at db.channel_watermarks)) [
        | inl e ↦ inl (rw (updated, e) refl)
        | inr (r, e) ↦ inr (rw (updated, e) (rw (find_row-holds at db.channel_watermarks r e) refl))
      ]

  finish-other :
      (c d : String)
      → (channel ≢ c) ⊎ (conversation ≢ d)
      → (read_watermark finished c d).gap_unresolved ≡ (read_watermark db c d).gap_unresolved
  unfolding finish_import read_watermark
  finish-other c d n =
      let at = at_conversation channel conversation in
      let flag : Watermark → Watermark = λ w. record w {
        gap_unresolved = has_row (incomplete channel conversation) finished.coverage_windows;
      } in
      let updated =
        find_row-update (at_conversation c d) at flag db.channel_watermarks (λ r. refl) in
      elim (Option-cases (find_row (at_conversation c d) db.channel_watermarks)) [
        | inl e ↦ rw (updated, e) refl
        | inr (r, e) ↦
            let own = find_row-holds (at_conversation c d) db.channel_watermarks r e in
            let apart : at r ≡ false = elim (Bool-cases (at r)) [
              | inl h ↦ ground (arith, other_keys channel conversation c d r n h)
              | inr h ↦ h
            ] in
            rw (updated, e) (rw apart refl)
      ]

  finish-flag :
      (c d : String)
      → ((read_watermark finished c d).gap_unresolved ≡ (read_watermark db c d).gap_unresolved)
        ⊎ ((read_watermark finished c d).gap_unresolved
            ≡ has_row (incomplete c d) finished.coverage_windows)
  finish-flag c d = elim (keys_cases channel c conversation d) [
    | inl (p, q) ↦ rw (← p, ← q) finish-own
    | inr n ↦ inl (finish-other c d n)
  ]

  -- With the flag off after an import no gap is left, if that was so before it.
  pub finish-honest :
      (c d : String)
      → ((read_watermark db c d).gap_unresolved ≡ false
          → count_rows (is_gap c d) db.coverage_windows ≡ 0)
      → (read_watermark finished c d).gap_unresolved ≡ false
      → count_rows (is_gap c d) finished.coverage_windows ≡ 0
  finish-honest c d honest off = elim (finish-flag c d) [
    | inl e ↦ finish-fewer c d (honest (cc (e, off)))
    | inr e ↦
        let n : has_row (incomplete c d) finished.coverage_windows ≡ false = cc (e, off) in
        let weak =
          count_rows-weaken (is_gap c d) (incomplete c d) (λ r. r) finished.coverage_windows
            (λ r h. ground arith) in
        ground arith
  ]
