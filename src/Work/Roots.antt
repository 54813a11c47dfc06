-- ===== src/Work/Roots.antt =====
-- core/runtime_scheduling.go: the directories that workers hold at the same time.
use memgov.Base.{
  ℕ, ◌≡◌, ◌≢◌, sym, ap, ◌∙◌, subst, String, Bool, false, ◌&&◌, Option, List, [], ◌∷◌, ◌++◌, ok,
  find_row, count_rows, delete_rows, insert_ignore, str_eq, eq_iff, arith, Clock, after, after-elim,
  All, Bool-cases, Option-cases, inl, inr, Result-cases,
}
use memgov.Schema.{Db}
use memgov.Schema.Leases.{ResourceLock}
use memgov.Policy.{Digests}
use memgov.Work.{
  overlap, is_busy, is_lock_of, lock_all, lock_work_roots, renew_work_lease, record_work_process,
  set_work_phase, release_work_lease,
}

-- Locks of different leases do not overlap.
abbrev pub Apart : ResourceLock → ResourceLock → Type 0
Apart k m = k.lease_id ≢ m.lease_id → overlap k.root m.root ≡ false

-- So for every two rows.
abbrev pub Exclusive : List ResourceLock → Type 0
Exclusive [] = Unit {0}
Exclusive (k ∷ t) = All (Apart k) t × Exclusive t

All-append_one :
    (P : ResourceLock → Type 0) (t : List ResourceLock) (m : ResourceLock)
    → All P t
    → P m
    → All P (t ++ m ∷ [])
All-append_one P [] m h p = (p, tt)
All-append_one P (x ∷ t) m h p = (h.0, All-append_one P t m h.1 p)

All-delete :
    (P : ResourceLock → Type 0) (q : ResourceLock → Bool) (t : List ResourceLock)
    → All P t
    → All P (delete_rows q t)
unfolding delete_rows
All-delete P q [] h = tt
All-delete P q (x ∷ t) h = elim (Bool-cases (q x)) [
  | inl e ↦ rw e (All-delete P q t h.1)
  | inr e ↦ rw e (h.0, All-delete P q t h.1)
]

Exclusive-delete :
    (q : ResourceLock → Bool) (t : List ResourceLock) → Exclusive t → Exclusive (delete_rows q t)
unfolding delete_rows
Exclusive-delete q [] h = tt
Exclusive-delete q (x ∷ t) h = elim (Bool-cases (q x)) [
  | inl e ↦ rw e (Exclusive-delete q t h.1)
  | inr e ↦ rw e (All-delete (Apart x) q t h.0, Exclusive-delete q t h.1)
]

free-Apart :
    (id root : String) (k : ResourceLock)
    → is_busy id root k ≡ false
    → Apart k (record { root = root; lease_id = id })
unfolding is_busy
free-Apart id root k h other = ground (arith, eq_iff k.lease_id id)

-- A lock that no row is in the way of.
add-Exclusive :
    (id root : String) (t : List ResourceLock)
    → count_rows (is_busy id root) t ≡ 0
    → Exclusive t
    → Exclusive (t ++ record { root = root; lease_id = id } ∷ [])
unfolding count_rows
add-Exclusive id root [] n h = (tt, tt)
add-Exclusive id root (k ∷ t) n h =
    let free : is_busy id root k ≡ false = ground arith in
    let rest : count_rows (is_busy id root) t ≡ 0 = ground arith in
    (
      All-append_one (Apart k) t (record { root = root; lease_id = id }) h.0
          (free-Apart id root k free),
      add-Exclusive id root t rest h.1,
    )

insert-Exclusive :
    (id root : String) (q : ResourceLock → Bool) (t : List ResourceLock)
    → count_rows (is_busy id root) t ≡ 0
    → Exclusive t
    → Exclusive (insert_ignore q (record { root = root; lease_id = id }) t)
unfolding insert_ignore
insert-Exclusive id root q t n h = elim (Option-cases (find_row q t)) [
  | inl e ↦ rw (e, insert_ignore) (add-Exclusive id root t n h)
  | inr (r, e) ↦ rw (e, insert_ignore) h
]

lock_all-Exclusive :
    (id : String) (roots : List String) (t u : List ResourceLock)
    → lock_all id roots t ≡ ok u
    → Exclusive t
    → Exclusive u
unfolding lock_all
lock_all-Exclusive id [] t u e h = let p : t ≡ u = cc e in rw (sym p) h
lock_all-Exclusive id (root ∷ roots) t u e h =
    let n : count_rows (is_busy id root) t ≡ 0 = ground arith in
    let q = λ (k : ResourceLock). str_eq k.root root && str_eq k.lease_id id in
    lock_all-Exclusive id roots (insert_ignore q (record { root = root; lease_id = id }) t) u
      (ground arith) (insert-Exclusive id root q t n h)

pub data Call : Type 0 where
  lock : Clock → String → List String → Call
  renew : Clock → String → Call
  started : Clock → String → ℕ → String → Call
  phase : Clock → String → String → Call
  release : String → Call

module _ (julianday : String → Option ℕ) (digests : Digests) where
  abbrev pub step : Db → Call → Db
  step db (lock clock id roots) = after db (lock_work_roots julianday digests clock id roots db)
  step db (renew clock id) = after db (renew_work_lease julianday digests clock id db)
  step db (started clock id pid at) =
      after db (record_work_process julianday digests clock id pid at db)
  step db (phase clock id p) = after db (set_work_phase clock id p db)
  step db (release id) = after db (release_work_lease id db)

  unfoldable pub run : Db → List Call → Db
  run db [] = db
  run db (c ∷ cs) = run (step db c) cs

  lock-inv :
      (clock : Clock) (id : String) (roots : List String) (db : Db) (u : Unit {0}) (db' : Db)
      → lock_work_roots julianday digests clock id roots db ≡ ok (u, db')
      → lock_all id roots db.runtime_resource_locks ≡ ok db'.runtime_resource_locks
  unfolding lock_work_roots
  lock-inv clock id roots db u db' h =
      elim (Result-cases (lock_all id roots db.runtime_resource_locks)) [
        | inl (locks, e) ↦
            let q : db' ≡ record db { runtime_resource_locks = locks } = ground arith in
            e ∙ ap ok (sym (ap (λ (x : Db). x.runtime_resource_locks) q))
        | inr (x, e) ↦ ground arith
      ]

  renew-locks :
      (clock : Clock) (id : String) (db : Db) (u : Unit {0}) (db' : Db)
      → renew_work_lease julianday digests clock id db ≡ ok (u, db')
      → db'.runtime_resource_locks ≡ db.runtime_resource_locks
  unfolding renew_work_lease
  renew-locks clock id db u db' h = ground arith

  started-locks :
      (clock : Clock) (id : String) (pid : ℕ) (at : String) (db : Db) (u : Unit {0}) (db' : Db)
      → record_work_process julianday digests clock id pid at db ≡ ok (u, db')
      → db'.runtime_resource_locks ≡ db.runtime_resource_locks
  unfolding record_work_process
  started-locks clock id pid at db u db' h = ground arith

  abbrev LocksApart : Db → Type 0
  LocksApart db = Exclusive db.runtime_resource_locks

  step-Exclusive : (db : Db) (c : Call) → LocksApart db → LocksApart (step db c)
  unfolding set_work_phase release_work_lease
  step-Exclusive db (lock clock id roots) h =
      after-elim LocksApart db (lock_work_roots julianday digests clock id roots db) h λ u db' e.
        lock_all-Exclusive id roots db.runtime_resource_locks db'.runtime_resource_locks
          (lock-inv clock id roots db u db' e) h
  step-Exclusive db (renew clock id) h =
      after-elim LocksApart db (renew_work_lease julianday digests clock id db) h
        λ u db' e. subst Exclusive (sym (renew-locks clock id db u db' e)) h
  step-Exclusive db (started clock id pid at) h =
      after-elim LocksApart db (record_work_process julianday digests clock id pid at db) h
        λ u db' e. subst Exclusive (sym (started-locks clock id pid at db u db' e)) h
  step-Exclusive db (phase clock id p) h = h
  step-Exclusive db (release id) h = Exclusive-delete (is_lock_of id) db.runtime_resource_locks h

  -- From a store whose locks are apart on (such as the empty one), whatever leases lock, renew and
  -- release in whatever order: no directory that one lease has locked is one that another has
  -- locked, lies in it or contains it.
  pub locked_roots_stay_apart :
      (db : Db) (calls : List Call)
      → Exclusive db.runtime_resource_locks
      → Exclusive (run db calls).runtime_resource_locks
  unfolding run
  locked_roots_stay_apart db [] h = h
  locked_roots_stay_apart db (c ∷ cs) h =
      locked_roots_stay_apart (step db c) cs (step-Exclusive db c h)
