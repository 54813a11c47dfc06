-- ===== src/Channel/Receiver/Register.antt =====
-- What the lease calls promise: a register with one slot for each channel.
use memgov.Base.{
  ℕ, ◌+◌, String, Bool, false, not, ◌&&◌, ◌||◌, Option, none, some, List, [], ◌∷◌, Result, ok, err,
  invalid_input, not_found, conflict, internal, after, str_eq, str_lt, ◌==◌, if◌then◌else◌, Clock,
  format_nano, now,
}
use memgov.Channel.Receiver.{bad_ttl}
use memgov.Channel.Receiver.Calls.{Call, acquire, renew, release}

-- The last lease of a channel.
pub record Slot : Type 0 where
  pub holder : String
  pub token : String
  pub fence : ℕ
  pub until : String

-- What the receivers can name: `finds` holds of the ids and the names of the channels, `is_id` of the
-- ids. A slot belongs to an id.
pub record Directory : Type 0 where
  pub finds : String → Bool
  pub is_id : String → Bool

abbrev pub Register : Type 0
Register = String → Option Slot

-- What a caller is told: token, fence and end of its lease, or that it is released.
pub data Reply : Type 0 where
  leased : String → ℕ → String → Reply
  released : Reply

unfoldable pub put : Register → String → Slot → Register
put r channel s c = if str_eq channel c then some s else r c

unfoldable pub last_fence : Option Slot → ℕ
last_fence none = 0
last_fence (some s) = s.fence

-- Somebody else's lease still runs.
unfoldable pub is_taken : Clock → String → Option Slot → Bool
is_taken clock holder none = false
is_taken clock holder (some s) = str_lt (now clock) s.until && not (str_eq s.holder holder)

unfoldable pub bears : String → Option Slot → Bool
bears token none = false
bears token (some s) = str_eq s.token token

-- Token and fence are those of the last lease, whether or not it still runs.
unfoldable pub owns : String → ℕ → Option Slot → Bool
owns token fence none = false
owns token fence (some s) = str_eq s.token token && s.fence == fence

unfoldable pub extend : String → Option Slot → Option Slot
extend until none = none
extend until (some s) = some (record s { until = until })

-- The slot of one channel gets another end.
unfoldable pub put_end : Register → String → String → Register
put_end r channel until c = if str_eq channel c then extend until (r c) else r c

module _ (known : Directory) where
  unfoldable pub move : Register → Call → Result (Reply × Register)
  unfolding put
  move r (acquire clock id channel holder ttl) =
      let until = format_nano clock (clock.time + ttl) in
      let fence = last_fence (r channel) + 1 in
      if not (known.finds channel)
      then err not_found
      else if str_eq holder "" || bad_ttl ttl
      then err invalid_input
      else if is_taken clock holder (r channel)
      then err conflict
      else if not (known.is_id channel)
      then err internal
      else ok (
        leased id fence until,
        put r channel (record { holder = holder; token = id; fence = fence; until = until }),
      )
  move r (renew clock channel token fence ttl) =
      let until = format_nano clock (clock.time + ttl) in
      if bad_ttl ttl
      then err invalid_input
      else if owns token fence (r channel)
      then ok (leased token fence until, put_end r channel until)
      else err conflict
  move r (release clock channel token) =
      if bears token (r channel) then ok (released, put_end r channel (now clock)) else err conflict

  unfoldable pub play : Register → List Call → Register
  play r [] = r
  play r (c ∷ cs) = play (after r (move r c)) cs

-- What a result tells, without the state.
abbrev pub told {ℓ κ} : {A : Type ℓ} {S : Type κ} → Result (A × S) → Result A
told (ok (a, s)) = ok a
told (err e) = err e

module _ (known : Directory) where
  unfoldable pub replies : Register → List Call → List (Result Reply)
  replies r [] = []
  replies r (c ∷ cs) = told (move known r c) ∷ replies (after r (move known r c)) cs

-- A writer is let through with the token and fence of the last lease, if that token is not empty.
unfoldable pub admits : Option Slot → String → ℕ → Result (Unit {0})
admits s token fence = if not (bears "" s) && owns token fence s then ok tt else err conflict
