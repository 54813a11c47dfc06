-- ===== src/Channel/Receiver/Slots.antt =====
-- Each lease call on the tables, against the register.
use memgov.Base.{
  ℕ, ◌+◌, ◌≤◌, ◌≡◌, refl, ap, ◌∙◌, subst, String, Bool, true, false, not, ◌&&◌, ◌||◌, none, some,
  List, [], ◌∷◌, Result, ok, err, after, str_eq, eq_iff, arith, find_row, count_rows, ◌==◌, Clock,
  Bool-cases, Option-cases, inl, inr, format_nano, now, update_rows, if◌then◌else◌,
}
use mathlib.Core.Option
use memgov.Base.Table.{find_row-update, find_row-holds}
use memgov.Base.Counts.{count_rows-key}
use memgov.Schema.{Db}
use memgov.Schema.Channels.{Channel, Lease}
use memgov.Channel.{read_channel}
use memgov.Channel.Receiver.{
  read_lease, acquire_lease, renew_lease, release_lease, granted, write_lease, holds, is_channel,
}
use memgov.Channel.Receiver.Calls.{
  Call, acquire, renew, release, step, stored, stored-write, stored-write_other,
}
use memgov.Channel.Receiver.Register.{
  Directory, Slot, Register, Reply, leased, released, put, put_end, extend, last_fence, is_taken,
  bears, owns, move, told,
}

abbrev slot_of : Lease → Slot
slot_of l = record { holder = l.holder; token = l.token; fence = l.fence; until = l.until }

-- The register that the table stands for: the order of its rows is forgotten.
abbrev pub slots : Db → Register
slots db channel = Option.map slot_of (stored db channel)

abbrev pub registered : Db → Directory
registered db = record {
  finds = λ value.
      elim (find_row (λ (c : Channel). str_eq c.id value || str_eq c.name value) db.channels) [
        | none ↦ false
        | some c ↦ true
      ];
  is_id = is_channel db;
}

-- The primary key of `channel_leases`.
abbrev pub OneEach : Db → Type 0
OneEach db =
    (channel : String) → count_rows (λ l. str_eq l.channel_id channel) db.channel_leases ≤ 1

abbrev view {ℓ} : {A : Type ℓ} → (A → Reply) → Result (A × Db) → Result (Reply × Register)
view f (ok (a, db)) = ok (f a, slots db)
view f (err e) = err e

after-slots {ℓ} :
    {A : Type ℓ} (db : Db) (f : A → Reply) (m : Result (A × Db))
    → slots (after db m) ≡ after (slots db) (view f m)
after-slots db f (ok (a, d)) = refl
after-slots db f (err e) = refl

-- A call's answer, with the register it leaves.
abbrev pub served : Db → Call → Result (Reply × Register)
served db (acquire clock id channel holder ttl) =
    view (λ l. leased l.token l.fence l.until) (acquire_lease clock id channel holder ttl db)
served db (renew clock channel token fence ttl) =
    view (λ l. leased l.token l.fence l.until) (renew_lease clock channel token fence ttl db)
served db (release clock channel token) =
    view (λ _. released) (release_lease clock channel token db)

unfoldable pub answers : Db → List Call → List (Result Reply)
answers db [] = []
answers db (c ∷ cs) = told (served db c) ∷ answers (step db c) cs

slots-write :
    (channel : String) (l : Lease) (db : Db) (c : String)
    → l.channel_id ≡ channel
    → slots (write_lease channel l db) c ≡ put (slots db) channel (slot_of l) c
unfolding put
slots-write channel l db c e = elim (Bool-cases (str_eq channel c)) [
  | inl same ↦ rw same (
      subst (λ x. slots (write_lease channel l db) x ≡ some (slot_of l)) ((eq_iff channel c).0 same)
        (ap (Option.map slot_of) (stored-write channel l db e)))
  | inr other ↦ rw other (
      ap (Option.map slot_of)
        (stored-write_other channel c l db e (λ p. cc ((eq_iff channel c).1 p))))
]

read_lease-slot :
    (clock : Clock) (db : Db) (channel holder : String)
    → ((read_lease clock db channel).fence ≡ last_fence (slots db channel))
      × (((read_lease clock db channel).held
            && not (str_eq (read_lease clock db channel).holder holder))
          ≡ is_taken clock holder (slots db channel))
unfolding read_lease last_fence is_taken
read_lease-slot clock db channel holder = elim (Option-cases (stored db channel)) [
  | inl e ↦ rw (e, read_lease) (refl, refl)
  | inr (l, e) ↦ rw (e, read_lease) (refl, refl)
]

granted-slot :
    (clock : Clock) (id channel holder : String) (ttl : ℕ) (db : Db)
    → slots (write_lease channel (granted clock id channel holder ttl db) db)
      ≡ put (slots db) channel (record {
        holder = holder;
        token = id;
        fence = last_fence (slots db channel) + 1;
        until = format_nano clock (clock.time + ttl);
      })
granted-slot clock id channel holder ttl db i c =
    (slots-write channel (granted clock id channel holder ttl db) db c refl
        ∙ ap
            (λ n.
              put (slots db) channel
                (record {
                  holder = holder;
                  token = id;
                  fence = n + 1;
                  until = format_nano clock (clock.time + ttl);
                })
                c)
            (read_lease-slot clock db channel holder).0)
      i

-- The guards of the acquisition, in their order.
served-acquire :
    (clock : Clock) (id channel holder : String) (ttl : ℕ) (db : Db)
    → served db (acquire clock id channel holder ttl)
      ≡ move (registered db) (slots db) (acquire clock id channel holder ttl)
unfolding acquire_lease move read_channel
served-acquire clock id channel holder ttl db =
    ground
      (arith, read_lease-slot clock db channel holder, granted-slot clock id channel holder ttl db)

-- An update of a channel's row, which satisfies `p`.
module _ (p : Lease → Bool) (until stamp channel : String) (db : Db) where
  abbrev on_channel : Lease → Bool
  on_channel l = str_eq l.channel_id channel && p l

  counted :
      OneEach db
      → (count_rows on_channel db.channel_leases == 1)
        ≡ elim (stored db channel) [ none ↦ false | some l ↦ p l ]
  counted one =
      ground
        (arith, count_rows-key (λ l. str_eq l.channel_id channel) p db.channel_leases (one channel))

  abbrev ended : Db
  ended = record db {
    channel_leases =
        update_rows on_channel (λ l. record l { until = until; updated_at = stamp })
          db.channel_leases;
  }

  ended-stored :
      (c : String)
      → stored ended c
        ≡ Option.map
            (λ l. if on_channel l then record l { until = until; updated_at = stamp } else l)
            (stored db c)
  ended-stored c =
      find_row-update (λ l. str_eq l.channel_id c) on_channel _ db.channel_leases (λ r. refl)

  ended-slots :
      elim (stored db channel) [ none ↦ false | some l ↦ p l ] ≡ true
      → (c : String) → slots ended c ≡ put_end (slots db) channel until c
  unfolding put_end extend
  ended-slots h c = elim (Option-cases (stored db c)) [
    | inl e ↦ ground (arith, ended-stored c)
    | inr (l, e) ↦ ground (
      arith,
      ended-stored c,
      find_row-holds (λ r. str_eq r.channel_id c) db.channel_leases l e,
      eq_iff l.channel_id c,
      eq_iff l.channel_id channel,
      eq_iff channel c,
    )
  ]

  ended-put_end :
      elim (stored db channel) [ none ↦ false | some l ↦ p l ] ≡ true
      → slots ended ≡ put_end (slots db) channel until
  ended-put_end h i c = ended-slots h c i

served-renew :
    (clock : Clock) (channel token : String) (fence ttl : ℕ) (db : Db)
    → OneEach db
    → served db (renew clock channel token fence ttl)
      ≡ move (registered db) (slots db) (renew clock channel token fence ttl)
unfolding renew_lease move owns holds
served-renew clock channel token fence ttl db one =
    let p : Lease → Bool = λ l. str_eq l.token token && l.fence == fence in
    let until = format_nano clock (clock.time + ttl) in
    ground (
      arith,
      counted p until (now clock) channel db one,
      ended-put_end p until (now clock) channel db,
    )

served-release :
    (clock : Clock) (channel token : String) (db : Db)
    → OneEach db
    → served db (release clock channel token)
      ≡ move (registered db) (slots db) (release clock channel token)
unfolding release_lease move bears
served-release clock channel token db one =
    let p : Lease → Bool = λ l. str_eq l.token token in
    ground (
      arith,
      counted p (now clock) (now clock) channel db one,
      ended-put_end p (now clock) (now clock) channel db,
    )

pub call_refines :
    (db : Db) (call : Call) → OneEach db → served db call ≡ move (registered db) (slots db) call
call_refines db (acquire clock id channel holder ttl) one =
    served-acquire clock id channel holder ttl db
call_refines db (renew clock channel token fence ttl) one =
    served-renew clock channel token fence ttl db one
call_refines db (release clock channel token) one = served-release clock channel token db one

pub step-slots : (db : Db) (call : Call) → slots (step db call) ≡ after (slots db) (served db call)
step-slots db (acquire clock id channel holder ttl) = after-slots db _ _
step-slots db (renew clock channel token fence ttl) = after-slots db _ _
step-slots db (release clock channel token) = after-slots db _ _
