-- ===== src/Coverage/Backfill.antt =====
-- core/coverage.go: NextWindow. Times are nanoseconds; `parse` reads an RFC 3339 text. The code's
-- durations may be negative, and its times before the epoch: `span` and `overlap` are those of the
-- caller with a negative one as 0, and a time before the epoch is 0.
use memgov.Base.{
  ℕ, ◌+◌, ◌-◌, ◌*◌, ◌≤◌, ◌<◌, ◌≡◌, refl, ◌⊎◌, inl, inr, Option-cases, String, Option, none, some,
  ltb, ◌==◌, str_eq, second, if◌then◌else◌, arith,
}
use memgov.Schema.{Db}
use memgov.Coverage.{read_watermark}

pub record Range : Type 0 where
  pub start : ℕ
  pub stop : ℕ

-- One hour where none is asked for.
unfoldable pub span_of : ℕ → ℕ
span_of span = if span == 0 then 3600 * second else span

-- The last span of time.
unfoldable pub latest : ℕ → ℕ → Range
latest now span = record { start = now - span; stop = now }

-- From `overlap` before what is covered, one span at most.
unfoldable pub resume : ℕ → ℕ → ℕ → ℕ → Range
resume now span overlap covered =
    let start = covered - overlap in
    let stop = if ltb span (now - start) then start + span else now in
    if ltb start stop
    then record { start = start; stop = stop }
    else record { start = start; stop = start + span }

span_of-pos : (span : ℕ) → 1 ≤ span_of span
unfolding span_of
span_of-pos span = ground arith

-- How far the conversation is covered: none where nothing is recorded or the text does not parse.
unfoldable pub covered_at : (String → Option ℕ) → Db → String → String → Option ℕ
covered_at parse db channel conversation =
    let w = read_watermark db channel conversation in
    if str_eq w.covered_until "" then none else parse w.covered_until

-- The window to read at `now`: the last span of time where nothing is covered, and otherwise the one
-- from exactly `overlap` before the covered time that ends one span later or now.
abbrev pub IsNext : ℕ → ℕ → ℕ → Option ℕ → Range → Type 0
IsNext now span overlap none w = (w.start ≡ now - span) × (w.stop ≡ now)
IsNext now span overlap (some covered) w =
    (w.start ≡ covered - overlap)
    × (w.start < w.stop)
    × (w.stop ≤ w.start + span)
    × ((w.stop ≡ now) ⊎ (w.stop ≡ w.start + span))
    × ((w.stop ≤ now) ⊎ (now ≤ w.start))

resume-IsNext :
    (now span overlap covered : ℕ)
    → 1 ≤ span
    → IsNext now span overlap (some covered) (resume now span overlap covered)
unfolding resume
resume-IsNext now span overlap covered h = ground arith

module _ (parse : String → Option ℕ) where
  unfoldable pub next_window : Db → String → String → ℕ → ℕ → ℕ → Range
  next_window db channel conversation now span overlap =
      let w = read_watermark db channel conversation in
      if str_eq w.covered_until ""
      then latest now (span_of span)
      else elim (parse w.covered_until) [
        | none ↦ latest now (span_of span)
        | some covered ↦ resume now (span_of span) overlap covered
      ]

  -- Neither nothing nor an unreadable text is a covered time.
  next_window-latest :
      (db : Db) (channel conversation : String) (now span overlap : ℕ)
      → covered_at parse db channel conversation ≡ none
      → next_window db channel conversation now span overlap ≡ latest now (span_of span)
  unfolding next_window covered_at
  next_window-latest db channel conversation now span overlap h = ground arith

  next_window-resume :
      (db : Db) (channel conversation : String) (now span overlap covered : ℕ)
      → covered_at parse db channel conversation ≡ some covered
      → next_window db channel conversation now span overlap
        ≡ resume now (span_of span) overlap covered
  unfolding next_window covered_at
  next_window-resume db channel conversation now span overlap covered h = ground arith

  latest-IsNext : (now span overlap : ℕ) → IsNext now span overlap none (latest now span)
  unfolding latest
  latest-IsNext now span overlap = (refl, refl)

  -- Where a conversation is covered up to some time, the next window to read starts exactly
  -- `overlap` before it (at the epoch at the earliest), is not empty, is at most one span long and
  -- ends one span after its start or now, and not in the future unless it starts there; where
  -- nothing is covered, or the stored text is not a time, it is the last span up to now.
  pub next_window-resumes :
      (db : Db) (channel conversation : String) (now span overlap : ℕ)
      → IsNext now
          (span_of span)
          overlap
          (covered_at parse db channel conversation)
          (next_window db channel conversation now span overlap)
  next_window-resumes db channel conversation now span overlap =
      elim (Option-cases (covered_at parse db channel conversation)) [
        | inl e ↦
            rw (e, next_window-latest db channel conversation now span overlap e)
              (latest-IsNext now (span_of span) overlap)
        | inr (covered, e) ↦
            rw (e, next_window-resume db channel conversation now span overlap covered e)
              (resume-IsNext now (span_of span) overlap covered (span_of-pos span))
      ]
