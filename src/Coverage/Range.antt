-- ===== src/Coverage/Range.antt =====
-- What `covered_until` claims was read: it is the end of a range without holes.
use memgov.Base.{
  ℕ, ◌≡◌, ◌≢◌, refl, subst, String, true, Option, List, ◌⊎◌, inl, inr, str_lt, eq_iff, Clock,
  Bool-cases, Any, Lt, Le, arith, not-lt-empty, lt_trans, le_trans,
}
use memgov.Base.Lists.{Any-append_left, Any-append_right, Any-update}
use memgov.Schema.Windows.{Watermark, CoverageWindow}
use memgov.Coverage.{
  next_windows, resolve_gaps, window_row, mark_resolved, resolves, add_jump, jumps, advance,
}

-- The window was read completely and contains time `t` of the conversation.
pub record Reads (channel conversation t : String) (w : CoverageWindow) : Type 0 where
  pub whole : w.complete ≡ true
  pub same_channel : w.channel_id ≡ channel
  pub same_conversation : w.conversation_id ≡ conversation
  pub from_start : Le w.start_at t
  pub before_end : Lt t w.end_at

-- Every time of [start, end) lies in a window that was read completely.
abbrev pub Covers : List CoverageWindow → String → String → String → String → Type 0
Covers windows channel conversation start end =
    (t : String) → Le start t → Lt t end → Any (Reads channel conversation t) windows

mark-Reads :
    (channel conversation t : String) (clock : Clock) (r : CoverageWindow)
    → Reads channel conversation t r
    → Reads channel conversation t (mark_resolved clock r)
unfolding mark_resolved
mark-Reads channel conversation t clock r k = record {
  whole = k.whole;
  same_channel = k.same_channel;
  same_conversation = k.same_conversation;
  from_start = k.from_start;
  before_end = k.before_end;
}

module _ (julianday : String → Option ℕ) (clock : Clock) (id gap_id : String) (w : CoverageWindow)
    (current : Watermark) where
  resolve-Any :
      (channel conversation t : String) (windows : List CoverageWindow)
      → Any (Reads channel conversation t) windows
      → Any (Reads channel conversation t) (resolve_gaps julianday clock w windows)
  unfolding resolve_gaps
  resolve-Any channel conversation t windows h = elim (Bool-cases w.complete) [
    | inl e ↦ simp e (
        Any-update (Reads channel conversation t) (resolves julianday w) (mark_resolved clock)
          windows (mark-Reads channel conversation t clock) h)
    | inr e ↦ rw e h
  ]

  jump-Any :
      (channel conversation t : String) (windows : List CoverageWindow)
      → Any (Reads channel conversation t) windows
      → Any (Reads channel conversation t) (add_jump clock gap_id w current windows)
  unfolding add_jump
  jump-Any channel conversation t windows h = elim (Bool-cases (jumps w current)) [
    | inl e ↦ rw e (Any-append_left (Reads channel conversation t) windows _ h)
    | inr e ↦ rw e h
  ]

  -- A call keeps what the windows before it read.
  pub next_windows-keeps :
      (channel conversation t : String) (windows : List CoverageWindow)
      → Any (Reads channel conversation t) windows
      → Any
          (Reads channel conversation t)
          (next_windows julianday clock id gap_id w current windows)
  unfolding next_windows
  next_windows-keeps channel conversation t windows h = jump-Any channel conversation t _ (
      resolve-Any channel conversation t _
        (Any-append_left (Reads channel conversation t) windows _ h))

  -- And a complete one adds its own range.
  pub next_windows-adds :
      (t : String) (windows : List CoverageWindow)
      → w.complete ≡ true
      → Le w.start_at t
      → Lt t w.end_at
      → Any
          (Reads w.channel_id w.conversation_id t)
          (next_windows julianday clock id gap_id w current windows)
  unfolding next_windows window_row
  next_windows-adds t windows e a b = jump-Any w.channel_id w.conversation_id t _ (
      resolve-Any w.channel_id w.conversation_id t _ (
        Any-append_right (Reads w.channel_id w.conversation_id t) windows _ (
          inl (record {
            whole = e;
            same_channel = refl;
            same_conversation = refl;
            from_start = a;
            before_end = b;
          }))))

-- The covered range only grows, and only by a complete window that begins within it.
pub advance-cases :
    (w : CoverageWindow) (current : Watermark)
    → current.covered_until ≢ ""
    → ((advance w current).covered_until ≡ current.covered_until)
      ⊎ ((w.complete ≡ true)
          × Le w.start_at current.covered_until
          × Lt current.covered_until w.end_at
          × ((advance w current).covered_until ≡ w.end_at))
unfolding advance
advance-cases w current n = ground (arith, eq_iff current.covered_until "")

-- Two ranges that touch are one.
Covers-join :
    (ws : List CoverageWindow) (channel conversation start middle end from : String)
    → Covers ws channel conversation start middle
    → Covers ws channel conversation from end
    → Le from middle
    → Covers ws channel conversation start end
Covers-join ws channel conversation start middle end from a b le t h k =
    elim (Bool-cases (str_lt t middle)) [
      | inl before ↦ a t h before
      | inr behind ↦ b t (le_trans from middle t le behind) k
    ]

pub ne-empty : (s t : String) → Lt s t → t ≢ ""
ne-empty s t h e = cc (not-lt-empty s, subst (Lt s) e h)

-- The covered range after `advance`, from any start that the old range can be traced back to.
pub advance-Covers :
    (ws ws' : List CoverageWindow) (channel conversation start : String) (w : CoverageWindow)
    (current : Watermark)
    → ((t : String)
        → Any (Reads channel conversation t) ws
        → Any (Reads channel conversation t) ws')
    → (w.complete ≡ true → Covers ws' channel conversation w.start_at w.end_at)
    → Lt start current.covered_until
    → Covers ws channel conversation start current.covered_until
    → Covers ws' channel conversation start (advance w current).covered_until
      × Lt start (advance w current).covered_until
advance-Covers ws ws' channel conversation start w current keep new pos old =
    elim (advance-cases w current (ne-empty _ _ pos)) [
      | inl same ↦ rw same ((λ t h k. keep t (old t h k)), pos)
      | inr (e, from, to, next) ↦ rw next (
        Covers-join ws' channel conversation start current.covered_until w.end_at w.start_at
            (λ t h k. keep t (old t h k)) (new e) from,
        lt_trans start current.covered_until w.end_at pos to,
      )
    ]

-- The first complete window of a conversation.
pub advance-first :
    (w : CoverageWindow) (current : Watermark)
    → w.complete ≡ true
    → current.covered_until ≡ ""
    → (advance w current).covered_until ≡ w.end_at
unfolding advance
advance-first w current e n = ground (arith, eq_iff current.covered_until "")

-- A range that is not empty and was read.
abbrev pub Tracking : List CoverageWindow → String → String → String → String → Type 0
Tracking ws channel conversation start end = Covers ws channel conversation start end × Lt start end

pub Tracking-eq :
    {ws ws' : List CoverageWindow} {end end' : String} (channel conversation start : String)
    → ws' ≡ ws
    → end' ≡ end
    → Tracking ws channel conversation start end
    → Tracking ws' channel conversation start end'
Tracking-eq channel conversation start e f h = rw (e, f) h
