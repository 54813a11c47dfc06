-- ===== src/Work.antt =====
-- core/runtime_scheduling.go: the leases of workers, and the locks on the directories they write to.
pub mod Roots
pub mod Limits
pub mod Capacity
pub mod Lanes
pub mod Tests
use memgov.Base.{
  has_row, ℕ, ◌+◌, ◌*◌, ◌≤◌, String, Bool, true, false, not, ◌&&◌, ◌||◌, Option, none, some, List,
  [], ◌∷◌, ◌++◌, Result, ok, err, ◌>>=◌, ◌>>◌, fail_if, conflict, resource_busy, invalid_input,
  find_row, count_rows, update_rows, delete_rows, insert_ignore, str_eq, ltb, ◌==◌, if◌then◌else◌,
  concat, starts_with, Clock, now, second, format_nano,
}
use memgov.Schema.{Db}
use memgov.Schema.Leases.{WorkLease, ResourceLock}
use memgov.Schema.Tasks.{Task}
use memgov.Policy.{Digests, read_runtime, check_epoch, policy_digest}
use memgov.Coverage.{julian_le}

unfoldable pub is_lease : String → WorkLease → Bool
is_lease id l = str_eq l.id id

pub is_open : String → WorkLease → Bool
is_open id l = str_eq l.id id && not l.released

unfoldable pub is_lock_of : String → ResourceLock → Bool
is_lock_of id k = str_eq k.lease_id id

-- `root` lies in the directory `dir`: substr(root, 1, length(dir) + 1) = dir || '/'.
pub is_below : String → String → Bool
is_below root dir = starts_with (concat (dir ∷ "/" ∷ [])) root

pub overlap : String → String → Bool
overlap a b = str_eq a b || is_below a b || is_below b a

-- A lock of another lease on the directory, on one within it or on one that it lies in.
pub is_busy : String → String → ResourceLock → Bool
is_busy id root k = not (str_eq k.lease_id id) && overlap k.root root

-- The roots one by one.
pub lock_all : String → List String → List ResourceLock → Result (List ResourceLock)
lock_all id [] locks = ok locks
lock_all id (root ∷ roots) locks = do
  fail_if (ltb 0 (count_rows (is_busy id root) locks)) resource_busy
  lock_all id roots (
      insert_ignore (λ k. str_eq k.root root && str_eq k.lease_id id)
        (record { root = root; lease_id = id }) locks)

-- The task has this version.
pub has_version : Db → String → ℕ → Bool
has_version db id version =
    has_row (λ (t : Task). str_eq t.id id && t.version == version) db.runtime_tasks

module _ (julianday : String → Option ℕ) (digests : Digests) where
  -- A lease that was released, has run out or whose task has moved on.
  pub is_invalid : Clock → Db → String → WorkLease → Bool
  is_invalid clock db id l =
      str_eq l.id id
      && (l.released
          || julian_le julianday l.deadline_at (now clock)
          || julian_le julianday l.lease_until (now clock)
          || (not (str_eq l.task_id "") && not (has_version db l.task_id l.task_version)))

  -- The digest is that of the runtime's permissions now.
  pub permits : Db → String → String → Result (Unit {0})
  permits db runtime digest = do
    c ← read_runtime db runtime
    fail_if (not (str_eq digest (policy_digest digests c))) conflict

  -- A lease that is not in the table passes.
  pub check_work_lease : Clock → Db → String → Result (Unit {0})
  check_work_lease clock db id = do
    fail_if (not (count_rows (is_invalid clock db id) db.runtime_work_leases == 0)) conflict
    elim (find_row (is_lease id) db.runtime_work_leases) [
      | none ↦ ok tt
      | some l ↦
          (if str_eq l.runtime_policy_digest ""
            then ok tt
            else permits db l.runtime_id l.runtime_policy_digest)
          >> check_epoch digests db l.policy_version
    ]

  pub renew_work_lease : Clock → String → Db → Result (Unit {0} × Db)
  renew_work_lease clock id db = do
    check_work_lease clock db id
    ok (
      tt,
      record db {
        runtime_work_leases =
            update_rows (is_open id)
              (λ l. record l {
                heartbeat_at = now clock;
                lease_until = format_nano clock (clock.time + 30 * second);
              })
              db.runtime_work_leases;
      },
    )

  pub record_work_process : Clock → String → ℕ → String → Db → Result (Unit {0} × Db)
  record_work_process clock id pid started db = do
    check_work_lease clock db id
    ok (
      tt,
      record db {
        runtime_work_leases =
            update_rows (is_open id)
              (λ l. record l {
                process_pid = pid;
                process_started = started;
                activity_at = now clock;
              })
              db.runtime_work_leases;
      },
    )

  pub lock_work_roots : Clock → String → List String → Db → Result (Unit {0} × Db)
  lock_work_roots clock id roots db = do
    check_work_lease clock db id
    locks ← lock_all id roots db.runtime_resource_locks
    ok (tt, record db { runtime_resource_locks = locks })

pub set_work_phase : Clock → String → String → Db → Result (Unit {0} × Db)
set_work_phase clock id phase db = ok (
  tt,
  record db {
    runtime_work_leases =
        update_rows (is_open id) (λ l. record l { phase = phase; activity_at = now clock })
          db.runtime_work_leases;
  },
)

-- The directories are free, the row stays as released.
unfoldable pub release_work_lease : String → Db → Result (Unit {0} × Db)
release_work_lease id db = ok (
  tt,
  record db {
    runtime_resource_locks = delete_rows (is_lock_of id) db.runtime_resource_locks;
    runtime_work_leases =
        update_rows (is_lease id) (λ l. record l { released = true }) db.runtime_work_leases;
  },
)
