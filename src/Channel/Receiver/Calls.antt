-- ===== src/Channel/Receiver/Calls.antt =====
-- core/channel.go: the lease calls as data, and what an acquisition writes.
use memgov.Base.{
  ℕ, ◌≡◌, String, Option, none, some, List, [], ◌∷◌, ok, after, find_row, str_eq, eq_iff, arith,
  Clock, ◌⊎◌, ◌≢◌, true, false,
}
use memgov.Base.Table.{find_row-overwrite, find_row-upsert_other}
use memgov.Schema.{Db}
use memgov.Schema.Channels.{Lease}
use memgov.Channel.Receiver.{
  read_lease, acquire_lease, renew_lease, release_lease, granted, write_lease,
}

abbrev pub stored : Db → String → Option Lease
stored db channel = find_row (λ l. str_eq l.channel_id channel) db.channel_leases

abbrev pub fence_in : Option Lease → ℕ
fence_in none = 0
fence_in (some l) = l.fence

-- The fence that the next write must carry; 0 for a channel that was never leased.
abbrev pub fence_of : Db → String → ℕ
fence_of db channel = fence_in (stored db channel)

pub data Call : Type 0 where
  acquire : Clock → String → String → String → ℕ → Call
  renew : Clock → String → String → ℕ → ℕ → Call
  release : Clock → String → String → Call

abbrev pub step : Db → Call → Db
step db (acquire clock id channel holder ttl) =
    after db (acquire_lease clock id channel holder ttl db)
step db (renew clock channel token fence ttl) =
    after db (renew_lease clock channel token fence ttl db)
step db (release clock channel token) = after db (release_lease clock channel token db)

unfoldable pub run : Db → List Call → Db
run db [] = db
run db (c ∷ cs) = run (step db c) cs

pub read_lease-fence :
    (clock : Clock) (db : Db) (channel : String)
    → (read_lease clock db channel).fence ≡ fence_of db channel
unfolding read_lease
read_lease-fence clock db channel = ground arith

-- A grant needs the channel free, or held by the same holder.
pub acquire-inv :
    (clock : Clock) (id channel holder : String) (ttl : ℕ) (db : Db) (l : Lease) (db' : Db)
    → acquire_lease clock id channel holder ttl db ≡ ok (l, db')
    → (l ≡ granted clock id channel holder ttl db)
      × (db' ≡ write_lease channel l db)
      × (((read_lease clock db channel).held ≡ false)
          ⊎ ((read_lease clock db channel).holder ≡ holder))
unfolding acquire_lease
acquire-inv clock id channel holder ttl db l db' h =
    ground (arith, eq_iff (read_lease clock db channel).holder holder)

pub stored-write :
    (channel : String) (l : Lease) (db : Db)
    → l.channel_id ≡ channel
    → stored (write_lease channel l db) channel ≡ some l
stored-write channel l db e =
    find_row-overwrite (λ r. str_eq r.channel_id channel) l db.channel_leases
      ((eq_iff l.channel_id channel).1 e)

-- Two keys that differ are told apart by the test.
pub key_ne : (a b c : String) → b ≢ c → str_eq a b ≡ true → str_eq a c ≡ false
key_ne a b c d h = ground (arith, eq_iff a b, eq_iff a c)

pub stored-write_other :
    (channel other : String) (l : Lease) (db : Db)
    → l.channel_id ≡ channel
    → channel ≢ other
    → stored (write_lease channel l db) other ≡ stored db other
stored-write_other channel other l db e d =
    find_row-upsert_other (λ r. str_eq r.channel_id channel) (λ r. str_eq r.channel_id other) l
      (λ _. l) db.channel_leases (key_ne _ _ _ d ((eq_iff _ _).1 e))
      λ r h. (key_ne _ _ _ d h, key_ne _ _ _ d ((eq_iff _ _).1 e))
