-- ===== src/Channel/Receiver/Fence.antt =====
-- The fence of a channel over any history of lease calls.
use memgov.Base.{
  ℕ, ◌+◌, ◌≤◌, ◌<◌, ◌≡◌, refl, ap, format_nano, now, ◌&&◌, ◌∙◌, if◌then◌else◌, after-elim, String,
  List, [], ◌∷◌, ok, err, conflict, find_row, update_rows, str_eq, eq_iff, eq_refl, arith, Clock,
  Bool-cases, inl, inr, ◌≢◌, Bool, false,
}
use memgov.Schema.{Db}
use memgov.Schema.Channels.{Lease}
use memgov.Channel.Receiver.{acquire_lease, check_lease, renew_lease, release_lease, holds}
use memgov.Channel.Receiver.Calls.{
  fence_in, fence_of, Call, acquire, renew, release, step, run, read_lease-fence, acquire-inv,
  stored-write, stored-write_other,
}

-- Another channel keeps its lease, and the leased one moves on by one.
acquire-fence :
    (clock : Clock) (id channel holder : String) (ttl : ℕ) (db : Db) (l : Lease) (db' : Db)
    → acquire_lease clock id channel holder ttl db ≡ ok (l, db')
    → (c : String)
    → fence_of db' c ≡ (if str_eq channel c then fence_of db c + 1 else fence_of db c)
acquire-fence clock id channel holder ttl db l db' h c =
    let (e, w, _) = acquire-inv clock id channel holder ttl db l db' h in
    elim (Bool-cases (str_eq channel c)) [
      | inl same ↦
          let k : channel ≡ c = (eq_iff channel c).0 same in
          rw (same, w)
            (rw (← k) (
              ap fence_in (stored-write channel l db (ap (λ (x : Lease). x.channel_id) e))
              ∙ ap (λ (x : Lease). x.fence) e
              ∙ ap (λ (n : ℕ). n + 1) (read_lease-fence clock db channel)))
      | inr other ↦
          rw (other, w)
            (ap fence_in (
              stored-write_other channel c l db (ap (λ (x : Lease). x.channel_id) e)
                (λ k. cc ((eq_iff channel c).1 k))))
    ]

acquire-fence_self :
    (clock : Clock) (id channel holder : String) (ttl : ℕ) (db : Db) (l : Lease) (db' : Db)
    → acquire_lease clock id channel holder ttl db ≡ ok (l, db')
    → fence_of db' channel ≡ fence_of db channel + 1
acquire-fence_self clock id channel holder ttl db l db' h =
    acquire-fence clock id channel holder ttl db l db' h channel ∙ rw (eq_refl channel)

acquire-le :
    (clock : Clock) (id channel holder : String) (ttl : ℕ) (db : Db) (l : Lease) (db' : Db)
    → acquire_lease clock id channel holder ttl db ≡ ok (l, db')
    → (c : String) → fence_of db c ≤ fence_of db' c
acquire-le clock id channel holder ttl db l db' h c =
    rw (acquire-fence clock id channel holder ttl db l db' h c) (ground arith)

acquire-step :
    (clock : Clock) (id channel holder : String) (ttl : ℕ) (db : Db) (c : String)
    → fence_of db c ≤ fence_of (step db (acquire clock id channel holder ttl)) c
acquire-step clock id channel holder ttl db c =
    after-elim (λ d. fence_of db c ≤ fence_of d c) db _ (omega arith)
      λ l db' h. acquire-le clock id channel holder ttl db l db' h c

-- An update that keeps keys and fences keeps every channel's fence.
update-fence :
    (q : Lease → Bool) (f : Lease → Lease) (t : List Lease) (c : String)
    → ((l : Lease) → ((f l).channel_id ≡ l.channel_id) × ((f l).fence ≡ l.fence))
    → fence_in (find_row (λ l. str_eq l.channel_id c) (update_rows q f t))
      ≡ fence_in (find_row (λ l. str_eq l.channel_id c) t)
unfolding find_row update_rows
update-fence q f [] c k = refl
update-fence q f (l ∷ t) c k = ground (arith, k l, update-fence q f t c k)

-- The leases after an update of rows with one token, which keeps keys and fences.
abbrev pub Touched : String → List Lease → List Lease → Type 0
Touched token t u =
    (q : Lease → Bool) × (f : Lease → Lease) × ((l : Lease)
      → ((f l).channel_id ≡ l.channel_id) × ((f l).fence ≡ l.fence))
    × ((l : Lease) → token ≢ l.token → q l ≡ false)
    × (u ≡ update_rows q f t)

pub renew-Touched :
    (clock : Clock) (channel token : String) (fence ttl : ℕ) (db : Db) (l : Lease) (db' : Db)
    → renew_lease clock channel token fence ttl db ≡ ok (l, db')
    → Touched token db.channel_leases db'.channel_leases
unfolding renew_lease
renew-Touched clock channel token fence ttl db l db' h = (
  holds channel token fence,
  (λ l. record l { until = format_nano clock (clock.time + ttl); updated_at = now clock }),
  (λ l. (refl, refl)),
  (λ l d. ground (arith, eq_iff l.token token)),
  ground arith,
)

pub release-Touched :
    (clock : Clock) (channel token : String) (db : Db) (a : Unit {0}) (db' : Db)
    → release_lease clock channel token db ≡ ok (a, db')
    → Touched token db.channel_leases db'.channel_leases
unfolding release_lease
release-Touched clock channel token db a db' h = (
  (λ l. str_eq l.channel_id channel && str_eq l.token token),
  (λ l. record l { until = now clock; updated_at = now clock }),
  (λ l. (refl, refl)),
  (λ l d. ground (arith, eq_iff l.token token)),
  ground arith,
)

Touched-fence :
    (token : String) (t u : List Lease) (c : String)
    → Touched token t u
    → fence_in (find_row (λ l. str_eq l.channel_id c) u)
      ≡ fence_in (find_row (λ l. str_eq l.channel_id c) t)
Touched-fence token t u c (q, f, k, _, e) = rw e (update-fence q f t c k)

-- No call moves a fence back.
step-fence : (db : Db) (call : Call) (c : String) → fence_of db c ≤ fence_of (step db call) c
step-fence db (acquire clock id channel holder ttl) c =
    acquire-step clock id channel holder ttl db c
step-fence db (renew clock channel token fence ttl) c =
    after-elim (λ d. fence_of db c ≤ fence_of d c) db (renew_lease clock channel token fence ttl db)
      (omega arith)
      λ l db' h.
        omega (
          arith,
          Touched-fence token _ _ c (renew-Touched clock channel token fence ttl db l db' h),
        )
step-fence db (release clock channel token) c =
    after-elim (λ d. fence_of db c ≤ fence_of d c) db (release_lease clock channel token db)
      (omega arith)
      λ l db' h.
        omega (arith, Touched-fence token _ _ c (release-Touched clock channel token db l db' h))

run-fence : (db : Db) (calls : List Call) (c : String) → fence_of db c ≤ fence_of (run db calls) c
unfolding run
run-fence db [] c = omega arith
run-fence db (call ∷ calls) c =
    omega (arith, step-fence db call c, run-fence (step db call) calls c)

check-old :
    (clock : Clock) (db : Db) (channel token : String) (fence : ℕ)
    → fence < fence_of db channel
    → check_lease clock db channel token fence ≡ err conflict
unfolding check_lease
check-old clock db channel token fence h = ground (arith, read_lease-fence clock db channel)

-- Once a channel has been leased again, a writer with the earlier fence is refused whatever token
-- it shows, after any further calls on any channel: it cannot get its right to write back.
pub superseded_writer_refused :
    (clock later : Clock) (id channel holder token : String) (ttl fence : ℕ) (db db' : Db)
    (l : Lease) (calls : List Call)
    → fence ≤ fence_of db channel
    → acquire_lease clock id channel holder ttl db ≡ ok (l, db')
    → check_lease later (run db' calls) channel token fence ≡ err conflict
superseded_writer_refused clock later id channel holder token ttl fence db db' l calls old h =
    check-old later (run db' calls) channel token fence (
      omega (
        arith,
        run-fence db' calls channel,
        acquire-fence_self clock id channel holder ttl db l db' h,
      ))
