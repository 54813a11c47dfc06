-- ===== src/Work/Capacity/Results.antt =====
-- core/runtime_scheduling.go: what claimWork changes.
use memgov.Base.{
  ◌++◌, has_row, Bool-cases, inl, inr, contains, false, refl, [], ◌∷◌, ℕ, ◌≡◌, String, List, ok,
  >>=-eq-ok, Clock,
}
use memgov.Schema.{Db}
use memgov.Schema.Leases.{WorkLease}
use memgov.Schema.Runtimes.{Runtime, AppliedConfig}
use memgov.Policy.{Digests, read_applied}
use memgov.Work.{is_lease}
use memgov.Work.Capacity.{new_lease, claim_rows, claim_work}

-- The newest configuration can always be read.
pub read_applied-ok : (db : Db) → (a : AppliedConfig) × (read_applied db 0 ≡ ok a)
unfolding read_applied
read_applied-ok db = (_, refl)

module _ (digests : Digests) where
  -- Only leases change.
  pub claim_work-inv :
      (clock : Clock) (c : Runtime) (kind id route task : String) (version : ℕ) (db db' : Db)
      → claim_work digests clock c kind id route task version db ≡ ok db'
      → (leases : List WorkLease) × (db' ≡ record db { runtime_work_leases = leases })
  unfolding claim_work
  claim_work-inv clock c kind id route task version db db' h =
      let (leases, _, e) =
        >>=-eq-ok (claim_rows digests clock c kind id route task version db)
          (λ l. ok (record db { runtime_work_leases = l })) h in
      (leases, cc e)

  -- With a fresh id the claim succeeds.
  pub claim_work-ok :
      (clock : Clock) (c : Runtime) (kind id route task : String) (version : ℕ) (db : Db)
      → has_row (is_lease id) db.runtime_work_leases ≡ false
      → (leases : List WorkLease) × (claim_work digests clock c kind id route task version db
          ≡ ok (record db { runtime_work_leases = leases }))
  unfolding claim_work claim_rows
  claim_work-ok clock c kind id route task version db fresh =
      let (applied, p) = read_applied-ok db in
      elim (Bool-cases (contains ("proactive" ∷ "group_mention" ∷ []) c.application_mode)) [
        | inl y ↦ (
          db.runtime_work_leases
              ++ new_lease digests clock c kind id route task version applied.version ∷ [],
          rw (y, p, fresh) refl,
        )
        | inr n ↦ (db.runtime_work_leases, rw n refl)
      ]
