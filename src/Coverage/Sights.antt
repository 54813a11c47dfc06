-- ===== src/Coverage/Sights.antt =====
-- core/coverage.go: what ObserveMessage does to the watermarks.
use memgov.Coverage.Marks.{keys_at, other_keys, keys_cases}
use memgov.Base.{
  upsert_row, after, lt_irrefl, Lt-Le, not-lt-empty, or_new, ◌≡◌, ◌≢◌, refl, ◌∙◌, String, Option,
  none, some, List, ◌⊎◌, inl, inr, find_row, str_eq, str_lt, Clock, now, Bool-cases, Le,
}
use memgov.Base.Table.{find_row-upsert, find_row-upsert_other}
use memgov.Schema.{Db}
use memgov.Schema.Windows.{Watermark}
use memgov.Coverage.{see, str_max, at_conversation, read_watermark, no_watermark, observe_message}

-- Seeing a message changes no claim about what is covered.
abbrev pub SameCover : Watermark → Watermark → Type 0
SameCover v w = (v.covered_until ≡ w.covered_until) × (v.gap_unresolved ≡ w.gap_unresolved)

str_max-ge : (a b : String) → Le a (str_max a b)
unfolding str_max
str_max-ge a b = elim (Bool-cases (str_lt a b)) [
  | inl h ↦ rw h (Lt-Le a b h)
  | inr h ↦ rw h (lt_irrefl a)
]

abbrev pub seen_as : Clock → String → Watermark → Option Watermark → Option Watermark
seen_as clock sent_at new none = some new
seen_as clock sent_at new (some r) = some (see clock sent_at r)

seen-elim :
    (clock : Clock) (sent_at : String) (new : Watermark) (o : Option Watermark)
    → elim o [ none ↦ some new | some r ↦ some (see clock sent_at r) ] ≡ seen_as clock sent_at new o
seen-elim clock sent_at new none = refl
seen-elim clock sent_at new (some r) = refl

pub first_sight : Clock → String → String → String → Watermark
first_sight clock channel conversation sent_at = record (no_watermark channel conversation) {
  observed_at = sent_at;
  updated_at = now clock;
}

seen-fields :
    (clock : Clock) (sent_at channel conversation : String) (o : Option Watermark)
    → let blank = no_watermark channel conversation in
      let v =
        or_new (seen_as clock sent_at (first_sight clock channel conversation sent_at) o) blank in
      SameCover v (or_new o blank) × Le (or_new o blank).observed_at v.observed_at
unfolding see no_watermark first_sight
seen-fields clock sent_at channel conversation none = ((refl, refl), not-lt-empty sent_at)
seen-fields clock sent_at channel conversation (some r) =
    ((refl, refl), str_max-ge r.observed_at sent_at)

abbrev pub Keeps : Watermark → Watermark → Type 0
Keeps old new = SameCover new old × Le old.observed_at new.observed_at

sight_row :
    (clock : Clock) (channel conversation sent_at : String) (t : List Watermark)
    → find_row (at_conversation channel conversation) (
        upsert_row
          (at_conversation channel conversation)
          (first_sight clock channel conversation sent_at)
          (see clock sent_at)
          t)
      ≡ seen_as clock sent_at
          (first_sight clock channel conversation sent_at)
          (find_row (at_conversation channel conversation) t)
unfolding see first_sight no_watermark
sight_row clock channel conversation sent_at t =
    find_row-upsert (at_conversation channel conversation) _ (see clock sent_at) t
      (keys_at channel conversation (first_sight clock channel conversation sent_at) refl refl)
      (λ r h. h)
    ∙ seen-elim clock sent_at _ _

sight_row_other :
    (clock : Clock) (channel conversation sent_at c d : String) (t : List Watermark)
    → (channel ≢ c) ⊎ (conversation ≢ d)
    → find_row (at_conversation c d) (
        upsert_row
          (at_conversation channel conversation)
          (first_sight clock channel conversation sent_at)
          (see clock sent_at)
          t)
      ≡ find_row (at_conversation c d) t
unfolding see first_sight no_watermark
sight_row_other clock channel conversation sent_at c d t n =
    find_row-upsert_other (at_conversation channel conversation) (at_conversation c d) _
      (see clock sent_at) t
      (other_keys channel conversation c d (first_sight clock channel conversation sent_at) n
        (keys_at channel conversation (first_sight clock channel conversation sent_at) refl refl))
      (λ r h.
        (other_keys channel conversation c d r n h, other_keys channel conversation c d r n h))

sight-Keeps :
    (clock : Clock) (channel conversation sent_at c d : String) (t : List Watermark)
    → Keeps (or_new (find_row (at_conversation c d) t) (no_watermark c d)) (
        or_new
          (find_row (at_conversation c d) (
            upsert_row
              (at_conversation channel conversation)
              (first_sight clock channel conversation sent_at)
              (see clock sent_at)
              t))
          (no_watermark c d))
sight-Keeps clock channel conversation sent_at c d t = elim (keys_cases channel c conversation d) [
  | inl (p, q) ↦
      rw (← p, ← q)
        (rw (sight_row clock channel conversation sent_at t)
          (seen-fields clock sent_at channel conversation _))
  | inr n ↦
      rw (sight_row_other clock channel conversation sent_at c d t n) ((refl, refl), lt_irrefl _)
]

-- Seeing a message moves `observed_at` forward at most, and leaves what is covered and the windows.
pub observe-Keeps :
    (clock : Clock) (channel conversation sent_at : String) (db : Db) (c d : String)
    → let db' = after db (observe_message clock channel conversation sent_at db) in
      (db'.coverage_windows ≡ db.coverage_windows)
      × Keeps (read_watermark db c d) (read_watermark db' c d)
unfolding observe_message read_watermark first_sight
observe-Keeps clock channel conversation sent_at db c d = elim (Bool-cases (str_eq sent_at "")) [
  | inl e ↦ rw e (refl, ((refl, refl), lt_irrefl _))
  | inr e ↦ rw e (refl, sight-Keeps clock channel conversation sent_at c d db.channel_watermarks)
]
