-- ===== src/Coverage/Marks.antt =====
-- Reading back the watermark that a call writes.
use memgov.Base.{
  or_new, ◌≡◌, ◌≢◌, refl, ap, ◌∙◌, String, true, false, Option, none, some, ◌⊎◌, inl, inr, find_row,
  str_eq, eq_iff, Bool-cases, Option-cases, arith,
}
use memgov.Base.Table.{find_row-holds, find_row-upsert, find_row-upsert_other}
use memgov.Schema.{Db}
use memgov.Schema.Windows.{Watermark}
use memgov.Coverage.{
  at_conversation, read_watermark, no_watermark, write_watermark, merge_watermark,
}

abbrev pub marks : Db → String → String → Option Watermark
marks db channel conversation =
    find_row (at_conversation channel conversation) db.channel_watermarks

at_keys :
    (channel conversation : String) (w : Watermark)
    → at_conversation channel conversation w ≡ true
    → (w.channel_id ≡ channel) × (w.conversation_id ≡ conversation)
at_keys channel conversation w h =
    ground (arith, eq_iff w.channel_id channel, eq_iff w.conversation_id conversation)

pub keys_at :
    (channel conversation : String) (w : Watermark)
    → w.channel_id ≡ channel
    → w.conversation_id ≡ conversation
    → at_conversation channel conversation w ≡ true
keys_at channel conversation w a b =
    ground (arith, eq_iff w.channel_id channel, eq_iff w.conversation_id conversation)

-- A watermark is read under its own keys.
pub read_watermark-keys :
    (db : Db) (channel conversation : String)
    → ((read_watermark db channel conversation).channel_id ≡ channel)
      × ((read_watermark db channel conversation).conversation_id ≡ conversation)
unfolding read_watermark
read_watermark-keys db channel conversation = elim (Option-cases (marks db channel conversation)) [
  | inl e ↦ rw (e, read_watermark) (refl, refl)
  | inr (w, e) ↦
      rw (e, read_watermark)
        (at_keys channel conversation w (find_row-holds _ db.channel_watermarks w e))
]

-- Where a conversation has a row, the write keeps its keys.
abbrev pub merged : Watermark → Option Watermark → Option Watermark
merged next none = some next
merged next (some r) = some (merge_watermark next r)

merged-elim :
    (next : Watermark) (o : Option Watermark)
    → elim o [ none ↦ some next | some r ↦ some (merge_watermark next r) ] ≡ merged next o
merged-elim next none = refl
merged-elim next (some r) = refl

merged-fields :
    (next w : Watermark) (o : Option Watermark)
    → ((or_new (merged next o) w).covered_until ≡ next.covered_until)
      × ((or_new (merged next o) w).gap_unresolved ≡ next.gap_unresolved)
      × ((or_new (merged next o) w).observed_at ≡ next.observed_at)
unfolding merge_watermark
merged-fields next w none = (refl, refl, refl)
merged-fields next w (some r) = (refl, refl, refl)

pub marks-write :
    (next : Watermark) (db : Db)
    → marks (write_watermark next db) next.channel_id next.conversation_id
      ≡ merged next (marks db next.channel_id next.conversation_id)
unfolding write_watermark merge_watermark
marks-write next db =
    find_row-upsert (at_conversation next.channel_id next.conversation_id) next
      (merge_watermark next) db.channel_watermarks (keys_at _ _ next refl refl) (λ r h. h)
    ∙ merged-elim next (marks db next.channel_id next.conversation_id)

pub read-write :
    (next : Watermark) (db : Db)
    → let w = read_watermark (write_watermark next db) next.channel_id next.conversation_id in
      (w.covered_until ≡ next.covered_until)
      × (w.gap_unresolved ≡ next.gap_unresolved)
      × (w.observed_at ≡ next.observed_at)
unfolding read_watermark
read-write next db =
    rw (marks-write next db, read_watermark)
      (merged-fields next _ (marks db next.channel_id next.conversation_id))

-- The same, at keys that equal those of the written watermark.
pub read-write_at :
    (next : Watermark) (db : Db) (channel conversation : String)
    → next.channel_id ≡ channel
    → next.conversation_id ≡ conversation
    → let w = read_watermark (write_watermark next db) channel conversation in
      (w.covered_until ≡ next.covered_until)
      × (w.gap_unresolved ≡ next.gap_unresolved)
      × (w.observed_at ≡ next.observed_at)
read-write_at next db channel conversation p q = rw (← p, ← q) (read-write next db)

pub other_keys :
    (channel conversation c d : String) (w : Watermark)
    → (channel ≢ c) ⊎ (conversation ≢ d)
    → at_conversation channel conversation w ≡ true
    → at_conversation c d w ≡ false
other_keys channel conversation c d w n h = ground (
  arith,
  eq_iff w.channel_id channel,
  eq_iff w.conversation_id conversation,
  eq_iff w.channel_id c,
  eq_iff w.conversation_id d,
)

pub read-write_other :
    (next : Watermark) (db : Db) (channel conversation : String)
    → (next.channel_id ≢ channel) ⊎ (next.conversation_id ≢ conversation)
    → read_watermark (write_watermark next db) channel conversation
      ≡ read_watermark db channel conversation
unfolding read_watermark write_watermark merge_watermark
read-write_other next db channel conversation n =
    ap (λ (o : Option Watermark). or_new o (no_watermark channel conversation))
      (find_row-upsert_other (at_conversation next.channel_id next.conversation_id)
        (at_conversation channel conversation) next (merge_watermark next) db.channel_watermarks
        (other_keys _ _ _ _ next n (keys_at _ _ next refl refl))
        (λ r h. (other_keys _ _ _ _ r n h, other_keys _ _ _ _ r n h)))

-- A conversation is the one that a call is about, or another.
pub keys_cases : (a b c d : String) → ((a ≡ b) × (c ≡ d)) ⊎ ((a ≢ b) ⊎ (c ≢ d))
keys_cases a b c d = elim (Bool-cases (str_eq a b)) [
  | inr e ↦ inr (inl (λ p. cc ((eq_iff a b).1 p)))
  | inl e ↦ elim (Bool-cases (str_eq c d)) [
    | inl f ↦ inl ((eq_iff a b).0 e, (eq_iff c d).0 f)
    | inr f ↦ inr (inr (λ p. cc ((eq_iff c d).1 p)))
  ]
]
