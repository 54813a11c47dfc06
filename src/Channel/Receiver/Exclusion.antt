-- ===== src/Channel/Receiver/Exclusion.antt =====
-- A live lease against other receivers' calls, and how long a lease counts as live.
use memgov.Base.{
  subst, ℕ, ◌≡◌, ◌≢◌, ap, sym, ◌∙◌, String, some, List, [], ◌∷◌, ok, after-elim, find_row,
  update_rows, str_eq, eq_iff, arith, Clock, Bool-cases, inl, inr, Bool, true, false, ◌⊎◌, now, Lt,
}
use memgov.Base.Table.{find_row-update}
use memgov.Schema.{Db}
use memgov.Schema.Channels.{Lease}
use memgov.Channel.Receiver.{read_lease, acquire_lease, check_lease, renew_lease, release_lease}
use memgov.Channel.Receiver.Fence.{Touched, renew-Touched, release-Touched}
use memgov.Channel.Receiver.Calls.{
  Call, acquire, renew, release, step, run, stored, acquire-inv, stored-write, stored-write_other,
}

-- A call that is not the holder's: it takes the channel under another holder's name while the
-- lease still runs, or shows another token.
abbrev pub IsForeign : Lease → Call → Type 0
IsForeign l (acquire clock id channel holder ttl) =
    channel ≡ l.channel_id → (holder ≢ l.holder) × Lt (now clock) l.until
IsForeign l (renew clock channel token fence ttl) = token ≢ l.token
IsForeign l (release clock channel token) = token ≢ l.token

abbrev pub AllForeign : Lease → List Call → Type 0
AllForeign l [] = Unit {0}
AllForeign l (c ∷ cs) = IsForeign l c × AllForeign l cs

-- An update of rows that the stored one is not among.
stored-update :
    (q : Lease → Bool) (f : Lease → Lease) (t : List Lease) (channel : String) (l : Lease)
    → ((r : Lease) → (f r).channel_id ≡ r.channel_id)
    → q l ≡ false
    → find_row (λ r. str_eq r.channel_id channel) t ≡ some l
    → find_row (λ r. str_eq r.channel_id channel) (update_rows q f t) ≡ some l
stored-update q f t channel l k n h =
    find_row-update (λ r. str_eq r.channel_id channel) q f t (λ r. rw (k r)) ∙ rw h (rw n)

Touched-stored :
    (token : String) (db db' : Db) (l : Lease)
    → stored db l.channel_id ≡ some l
    → token ≢ l.token
    → Touched token db.channel_leases db'.channel_leases
    → stored db' l.channel_id ≡ some l
Touched-stored token db db' l h d (q, f, k, n, e) =
    rw e (stored-update q f db.channel_leases l.channel_id l (λ r. (k r).0) (n l d) h)

live-held :
    (clock : Clock) (db : Db) (l : Lease)
    → stored db l.channel_id ≡ some l
    → Lt (now clock) l.until
    → ((read_lease clock db l.channel_id).held ≡ true)
      × ((read_lease clock db l.channel_id).holder ≡ l.holder)
unfolding read_lease
live-held clock db l h k = ground arith

taken-free :
    (clock : Clock) (channel holder : String) (db : Db) (l : Lease)
    → stored db l.channel_id ≡ some l
    → channel ≡ l.channel_id
    → (holder ≢ l.holder) × Lt (now clock) l.until
    → ((read_lease clock db channel).held ≡ false) ⊎ ((read_lease clock db channel).holder ≡ holder)
    → ⊥
taken-free clock channel holder db l h p k (inl x) = cc (p, (live-held clock db l h k.1).0)
taken-free clock channel holder db l h p k (inr x) =
    k.0 (let (_, same) = live-held clock db l h k.1 in cc (p, same, x))

foreign-acquire :
    (clock : Clock) (id channel holder : String) (ttl : ℕ) (db : Db) (l : Lease)
    → stored db l.channel_id ≡ some l
    → IsForeign l (acquire clock id channel holder ttl)
    → (m : Lease) (db' : Db) → acquire_lease clock id channel holder ttl db ≡ ok (m, db')
    → stored db' l.channel_id ≡ some l
foreign-acquire clock id channel holder ttl db l h k m db' e =
    let (g, w, free) = acquire-inv clock id channel holder ttl db m db' e in
    elim (Bool-cases (str_eq channel l.channel_id)) [
      | inl same ↦
          let p : channel ≡ l.channel_id = (eq_iff channel l.channel_id).0 same in
          absurd (taken-free clock channel holder db l h p (k p) free)
      | inr other ↦ rw w (
          stored-write_other channel l.channel_id m db (ap (λ (x : Lease). x.channel_id) g)
            (λ p. cc ((eq_iff channel l.channel_id).1 p))
          ∙ h)
    ]

foreign-step :
    (db : Db) (l : Lease) (call : Call)
    → stored db l.channel_id ≡ some l
    → IsForeign l call
    → stored (step db call) l.channel_id ≡ some l
foreign-step db l (acquire clock id channel holder ttl) h k =
    after-elim (λ d. stored d l.channel_id ≡ some l) db _ h
      (foreign-acquire clock id channel holder ttl db l h k)
foreign-step db l (renew clock channel token fence ttl) h k =
    after-elim (λ d. stored d l.channel_id ≡ some l) db
      (renew_lease clock channel token fence ttl db) h
      λ m db' e.
        Touched-stored token db db' l h k (renew-Touched clock channel token fence ttl db m db' e)
foreign-step db l (release clock channel token) h k =
    after-elim (λ d. stored d l.channel_id ≡ some l) db (release_lease clock channel token db) h
      λ m db' e. Touched-stored token db db' l h k (release-Touched clock channel token db m db' e)

foreign-run :
    (db : Db) (l : Lease) (calls : List Call)
    → stored db l.channel_id ≡ some l
    → AllForeign l calls
    → stored (run db calls) l.channel_id ≡ some l
unfolding run
foreign-run db l [] h k = h
foreign-run db l (c ∷ cs) h k = foreign-run (step db c) l cs (foreign-step db l c h k.0) k.1

check-stored :
    (clock : Clock) (db : Db) (channel : String) (l : Lease)
    → stored db channel ≡ some l
    → l.token ≢ ""
    → check_lease clock db channel l.token l.fence ≡ ok tt
unfolding check_lease read_lease
check-stored clock db channel l h n = ground (arith, eq_iff l.token "", eq_iff l.token l.token)

-- Whoever has just been granted a lease can go on writing with its token and fence through any
-- calls of others, on any channel: while the lease runs nobody else takes the channel.
pub live_holder_keeps_writing :
    (clock later : Clock) (id channel holder : String) (ttl : ℕ) (db db' : Db) (l : Lease)
    (calls : List Call)
    → id ≢ ""
    → acquire_lease clock id channel holder ttl db ≡ ok (l, db')
    → AllForeign l calls
    → check_lease later (run db' calls) channel l.token l.fence ≡ ok tt
live_holder_keeps_writing clock later id channel holder ttl db db' l calls n h k =
    let (g, w, _) = acquire-inv clock id channel holder ttl db l db' h in
    let c : l.channel_id ≡ channel = ap (λ (x : Lease). x.channel_id) g in
    let t : l.token ≡ id = ap (λ (x : Lease). x.token) g in
    let s : stored db' channel ≡ some l = rw w (stored-write channel l db c) in
    check-stored later (run db' calls) channel l
      (subst (λ x. stored (run db' calls) x ≡ some l) c
        (foreign-run db' l calls (subst (λ x. stored db' x ≡ some l) (sym c) s) k))
      (λ e. n (sym t ∙ e))
