-- ===== src/Channel/Receiver/Expiry.antt =====
-- ReadLease compares two RFC3339Nano texts, whose order is not the order of the times.
use Prim.Native.String.{◌++◌}
use Prim.Native.String.append
use text.Mathlib.TextLemmas.{append_assoc}
use memgov.Base.{
  ℕ, ◌+◌, ◌*◌, ◌<◌, ◌≡◌, ap, ◌∙◌, String, some, Clock, second, format_nano, now, str_lt, arith,
  true, decimals,
}
use memgov.Base.Time.{format_nano_whole, format_nano_within}
use memgov.Base.Text.{lt-append, lt_first}
use memgov.Schema.{Db}
use memgov.Schema.Channels.{Lease}
use memgov.Channel.Receiver.{read_lease}
use memgov.Channel.Receiver.Calls.{stored}

-- "." sorts before "Z".
point_lt_zone : (y : String) → str_lt ("." ++ y) "Z" ≡ true
point_lt_zone y =
    ap (λ t. str_lt t "Z") (λ i. append.cons "." String.[] y i)
    ∙ lt_first "." "Z" (String.[] ++ y) String.[] (omega arith)

-- So any fraction of a second sorts before the whole second.
fraction_before_whole : (s d : String) → str_lt (s ++ (("." ++ d) ++ "Z")) (s ++ ("" ++ "Z")) ≡ true
fraction_before_whole s d =
    lt-append s (("." ++ d) ++ "Z") ("" ++ "Z")
    ∙ rw (append_assoc "." d "Z") (point_lt_zone (d ++ "Z"))

later_in_second :
    (clock : Clock) (s n : ℕ)
    → 0 < n
    → n < second
    → str_lt (format_nano clock (s * second + n)) (format_nano clock (s * second)) ≡ true
later_in_second clock s n pos small =
    rw (format_nano_whole clock s, format_nano_within clock s n pos small)
      (fraction_before_whole (clock.stamp s) (decimals 9 n))

-- A lease that ran out `n` nanoseconds ago, less than a second, at a whole second, still reads as
-- held: so nobody can take the channel over yet.
pub expired_lease_reads_held :
    (clock : Clock) (db : Db) (channel : String) (l : Lease) (s n : ℕ)
    → stored db channel ≡ some l
    → l.until ≡ format_nano clock (s * second)
    → clock.time ≡ s * second + n
    → 0 < n
    → n < second
    → (read_lease clock db channel).held ≡ true
unfolding read_lease now
expired_lease_reads_held clock db channel l s n h u t pos small =
    rw (h, read_lease) (rw (u, t) (later_in_second clock s n pos small))
