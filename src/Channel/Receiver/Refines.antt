-- ===== src/Channel/Receiver/Refines.antt =====
-- Histories of lease calls on the tables, against the register.
use memgov.Base.{
  ℕ, ◌+◌, ◌≤◌, ◌≡◌, ◌≢◌, refl, ap, sym, ◌∙◌, subst, String, Bool, not, ◌&&◌, none, List, [], ◌∷◌,
  ok, err, conflict, after, str_eq, eq_iff, arith, count_rows, ◌==◌, Clock, Bool-cases,
  Option-cases, inl, inr, fail_if-elim, ok-state, after-elim, format_nano, now, update_rows,
}
use memgov.Base.Counts.{count_rows-upsert, count_rows-upsert_other, count_rows-update_eq}
use memgov.Schema.{Db}
use memgov.Schema.Channels.{Lease}
use memgov.Channel.Receiver.{
  read_lease, acquire_lease, check_lease, renew_lease, release_lease, write_lease, holds, no_lease,
  bad_ttl,
}
use memgov.Channel.Receiver.Calls.{
  Call, acquire, renew, release, step, run, stored, key_ne, acquire-inv,
}
use memgov.Channel.Receiver.Slots.{slots, registered, OneEach, answers, step-slots, call_refines}
use memgov.Channel.Receiver.Register.{Directory, Register, bears, owns, move, play, replies, admits}

-- The calls leave the channels, and one row for each channel.
IsServing : Db → Db → Type 0
IsServing db db' = (registered db' ≡ registered db) × OneEach db'

write-IsServing :
    (channel : String) (l : Lease) (db : Db)
    → l.channel_id ≡ channel
    → OneEach db
    → IsServing db (write_lease channel l db)
unfolding IsServing
write-IsServing channel l db e one = (
  refl,
  λ c. elim (Bool-cases (str_eq channel c)) [
    | inl same ↦
        subst
          (λ x.
            count_rows (λ r. str_eq r.channel_id x) (write_lease channel l db).channel_leases ≤ 1)
          ((eq_iff channel c).0 same)
          (count_rows-upsert (λ r. str_eq r.channel_id channel) l (λ _. l) db.channel_leases
            ((eq_iff l.channel_id channel).1 e) (λ r h. (eq_iff l.channel_id channel).1 e)
            (one channel))
    | inr other ↦
        let d : channel ≢ c = λ p. cc ((eq_iff channel c).1 p) in
        omega (
          arith,
          one c,
          count_rows-upsert_other (λ r. str_eq r.channel_id channel) (λ r. str_eq r.channel_id c) l
              (λ _. l) db.channel_leases (key_ne _ _ _ d ((eq_iff _ _).1 e))
              (λ r h. (key_ne _ _ _ d h, key_ne _ _ _ d ((eq_iff _ _).1 e))),
        )
  ],
)

ended-IsServing :
    (q : Lease → Bool) (until stamp : String) (db : Db)
    → OneEach db
    → IsServing db (record db {
      channel_leases =
          update_rows q (λ l. record l { until = until; updated_at = stamp }) db.channel_leases;
    })
unfolding IsServing
ended-IsServing q until stamp db one = (
  refl,
  λ c. omega (
    arith,
    one c,
    count_rows-update_eq (λ r. str_eq r.channel_id c) q
        (λ l. record l { until = until; updated_at = stamp }) db.channel_leases (λ r. refl),
  ),
)

renew-IsServing :
    (clock : Clock) (channel token : String) (fence ttl : ℕ) (db : Db) (l : Lease) (db' : Db)
    → OneEach db
    → renew_lease clock channel token fence ttl db ≡ ok (l, db')
    → IsServing db db'
unfolding renew_lease
renew-IsServing clock channel token fence ttl db l db' one h =
    fail_if-elim (bad_ttl ttl) _ _ h λ _ k.
      fail_if-elim (not (count_rows (holds channel token fence) db.channel_leases == 1)) _ _ k
        λ _ e. subst (IsServing db) (sym (ok-state e)) (
          ended-IsServing (holds channel token fence) (format_nano clock (clock.time + ttl))
            (now clock) db one)

release-IsServing :
    (clock : Clock) (channel token : String) (db : Db) (a : Unit {0}) (db' : Db)
    → OneEach db
    → release_lease clock channel token db ≡ ok (a, db')
    → IsServing db db'
unfolding release_lease
release-IsServing clock channel token db a db' one h =
    fail_if-elim
      (not (
        count_rows (λ (l : Lease). str_eq l.channel_id channel && str_eq l.token token)
          db.channel_leases
        == 1))
      _ _ h
      λ _ e. subst (IsServing db) (sym (ok-state e)) (
        ended-IsServing (λ l. str_eq l.channel_id channel && str_eq l.token token) (now clock)
          (now clock) db one)

step-IsServing : (db : Db) (call : Call) → OneEach db → IsServing db (step db call)
unfolding IsServing
step-IsServing db (acquire clock id channel holder ttl) one =
    after-elim (IsServing db) db (acquire_lease clock id channel holder ttl db) (refl, one)
      λ l db' h.
        let (g, w, _) = acquire-inv clock id channel holder ttl db l db' h in
        subst (IsServing db) (sym w)
          (write-IsServing channel l db (ap (λ (x : Lease). x.channel_id) g) one)
step-IsServing db (renew clock channel token fence ttl) one =
    after-elim (IsServing db) db (renew_lease clock channel token fence ttl db) (refl, one)
      λ l db' h. renew-IsServing clock channel token fence ttl db l db' one h
step-IsServing db (release clock channel token) one =
    after-elim (IsServing db) db (release_lease clock channel token db) (refl, one)
      λ a db' h. release-IsServing clock channel token db a db' one h

check-unleased :
    (clock : Clock) (db : Db) (channel token : String) (fence : ℕ)
    → stored db channel ≡ none
    → check_lease clock db channel token fence ≡ err conflict
unfolding check_lease read_lease no_lease
check-unleased clock db channel token fence h = rw (h, check_lease, read_lease) refl

check_refines :
    (clock : Clock) (db : Db) (channel token : String) (fence : ℕ)
    → check_lease clock db channel token fence ≡ admits (slots db channel) token fence
unfolding check_lease read_lease admits bears owns
check_refines clock db channel token fence = elim (Option-cases (stored db channel)) [
  | inl e ↦ check-unleased clock db channel token fence e ∙ ground (arith, e)
  | inr (l, e) ↦ ground (arith, e, eq_iff l.token "", eq_iff l.token token)
]

run_refines :
    (known : Directory) (db : Db) (calls : List Call)
    → registered db ≡ known
    → OneEach db
    → (answers db calls ≡ replies known (slots db) calls)
      × (slots (run db calls) ≡ play known (slots db) calls)
unfolding answers replies run play IsServing
run_refines known db [] k one = (refl, refl)
run_refines known db (c ∷ cs) k one =
    let (kept, still) = step-IsServing db c one in
    let answer = call_refines db c one ∙ ap (λ x. move x (slots db) c) k in
    let next = step-slots db c ∙ ap (after (slots db)) answer in
    let (told_rest, slots_rest) = run_refines known (step db c) cs (kept ∙ k) still in
    (cc (answer, next, told_rest), cc (next, slots_rest))

-- From a store with one lease row for each channel, any calls of receivers, in whatever order, are
-- answered as by a register with one slot for each channel id (an acquisition under a mere name of
-- a channel is refused), and a writer's check then passes exactly if its token and fence are the
-- ones in the slot and the token is not empty.
pub leases_refine_register :
    (clock : Clock) (channel token : String) (fence : ℕ) (db : Db) (calls : List Call)
    → OneEach db
    → (answers db calls ≡ replies (registered db) (slots db) calls)
      × (check_lease clock (run db calls) channel token fence
          ≡ admits (play (registered db) (slots db) calls channel) token fence)
leases_refine_register clock channel token fence db calls one =
    let (told_all, left) = run_refines (registered db) db calls refl one in
    (
      told_all,
      check_refines clock (run db calls) channel token fence
          ∙ ap (λ (r : Register). admits (r channel) token fence) left,
    )
