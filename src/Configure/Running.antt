-- ===== src/Configure/Running.antt =====
-- core/runtime.go with core/runtime_scheduling.go: the policy of a running runtime that is configured
-- anew.
use memgov.Base.{
  ◌≡◌, refl, sym, ap, ◌∙◌, String, Bool, true, not, ◌&&◌, ◌||◌, none, some, List, [], ◌∷◌, ok,
  Clock, find_row, update_rows, str_eq, eq_iff, ltb, ◌==◌, Bool-cases, Option-cases, inl, inr,
  >>=-elim, fail_if-elim, ok_inj, conflict, denied, invalid_input, if◌then◌else◌, or_new,
  trim_space, arith, or_fail, not_found,
}
use memgov.Base.Table.{find_row-update}
use memgov.Schema.{Db}
use memgov.Schema.Runtimes.{Runtime}
use memgov.Policy.{Digests, read_runtime, scanned, policy_digest}
use memgov.Channel.{read_channel, read_route}
use memgov.Identity.{principal_for}
use memgov.Intake.People.{principal_for-Met}
use memgov.Configure.{Input, bash_of, normalize_input}
use memgov.Configure.Checks.{for_mode, check_routes, owner_routes}
use memgov.Configure.Store.{
  same_list, scheduling_only, configured, is_version, change_runtime, configure_runtime,
}
use memgov.Configure.Names.{normalize_input-name, for_mode-name, read-Met}

same_list-eq : (xs ys : List String) → same_list xs ys ≡ true → xs ≡ ys
unfolding same_list
same_list-eq [] [] h = refl
same_list-eq [] (y ∷ ys) h = cc
same_list-eq (x ∷ xs) [] h = cc
same_list-eq (x ∷ xs) (y ∷ ys) h =
    let a : x ≡ y = ground (arith, eq_iff x y) in
    let b : xs ≡ ys = same_list-eq xs ys (ground arith) in cc

-- The fields that the policy is made of stay.
policy_stays :
    (digests : Digests) (clock : Clock) (i : Input) (channel owner : String) (row : Runtime)
    → scheduling_only (scanned row) i channel owner ≡ true
    → policy_digest digests (scanned (configured clock i channel owner row))
      ≡ policy_digest digests (scanned row)
unfolding scheduling_only scanned configured policy_digest
policy_stays digests clock i channel owner row h =
    let a : row.channel_id ≡ channel = ground (arith, eq_iff row.channel_id channel) in
    let b : row.owner_principal_id ≡ owner = ground (arith, eq_iff row.owner_principal_id owner) in
    let c : row.owner_id_type ≡ i.owner.id_type =
      ground (arith, eq_iff row.owner_id_type i.owner.id_type) in
    let d : row.owner_id_value ≡ i.owner.id_value =
      ground (arith, eq_iff row.owner_id_value i.owner.id_value) in
    let e : row.route_ids ≡ i.route_ids = same_list-eq row.route_ids i.route_ids (ground arith) in
    let f : row.claude_profile ≡ i.claude_profile =
      ground (arith, eq_iff row.claude_profile i.claude_profile) in
    let g : row.analysis_model ≡ i.analysis_model =
      ground (arith, eq_iff row.analysis_model i.analysis_model) in
    let j : row.execution_model ≡ i.execution_model =
      ground (arith, eq_iff row.execution_model i.execution_model) in
    let k : row.agent_preset ≡ i.agent_preset =
      ground (arith, eq_iff row.agent_preset i.agent_preset) in
    let l : row.application_mode ≡ i.application_mode =
      ground (arith, eq_iff row.application_mode i.application_mode) in
    let m : row.context_channel_id ≡ i.context_channel =
      ground (arith, eq_iff row.context_channel_id i.context_channel) in
    let n : row.agent_capabilities ≡ or_new i.agent_capabilities [] =
      same_list-eq row.agent_capabilities (or_new i.agent_capabilities []) (ground arith) in
    let o : row.agent_bash ≡ bash_of "" i.agent_bash = ground arith in
    let p : row.external_actions ≡ i.external_actions =
      ground (arith, eq_iff row.external_actions i.external_actions) in
    let q : (if str_eq row.application_mode "proactive" then "" else i.delivery_route_id)
        ≡ (if str_eq row.application_mode "proactive" then "" else row.delivery_route_id) =
      elim (Bool-cases (str_eq row.application_mode "proactive")) [
        | inl t ↦ rw t refl
        | inr t ↦
            let same : row.delivery_route_id ≡ i.delivery_route_id =
              ground (arith, eq_iff row.delivery_route_id i.delivery_route_id) in
            rw t (sym same)
      ] in
    rw (← a, ← b, ← c, ← d, ← e, ← f, ← g, ← j, ← k, ← l, ← m, ← n, ← o, ← p, q) refl

abbrev named : String → Runtime → Bool
named value c = str_eq c.id value || str_eq c.name value

-- The row that a runtime is read from.
row_of :
    (db : Db) (value : String) (c : Runtime)
    → read_runtime db value ≡ ok c
    → (row : Runtime) × (find_row (named value) db.runtime_configs ≡ some row) × (scanned row ≡ c)
unfolding read_runtime
row_of db value c h = elim (Option-cases (find_row (named value) db.runtime_configs)) [
  | inl e ↦
      absurd
        (let k : or_fail none not_found ≡ ok c = rw (e, read_runtime) at h in let l : ⊥ = cc in l)
  | inr (row, e) ↦ (row, e, let k : ok (scanned row) ≡ ok c = rw (e, read_runtime) at h in ok_inj k)
]

-- What is read after the row has been configured anew.
read_configured :
    (digests : Digests) (clock : Clock) (i : Input) (channel owner : String) (c : Runtime) (db : Db)
    (c' : Runtime)
    → read_runtime db c.id ≡ ok c
    → scheduling_only c i channel owner ≡ true
    → read_runtime
        (record db {
          runtime_configs =
              update_rows
                (is_version c.id c.version)
                (configured clock i channel owner)
                db.runtime_configs;
        })
        c.id
      ≡ ok c'
    → policy_digest digests c' ≡ policy_digest digests c
unfolding configured
read_configured digests clock i channel owner c db c' found only h =
    let (row, at_row, same) = row_of db c.id c found in
    let (new, at_new, same') = row_of _ c.id c' h in
    let moved =
      find_row-update (named c.id) (is_version c.id c.version) (configured clock i channel owner)
        db.runtime_configs (λ r. refl) in
    let only' : scheduling_only (scanned row) i channel owner ≡ true = rw same only in
    elim (Bool-cases (is_version c.id c.version row)) [
      | inl v ↦
          let k : some (configured clock i channel owner row) ≡ some new =
            rw (moved, at_row, v) at at_new in
          let e : configured clock i channel owner row ≡ new = cc in
          sym (ap (policy_digest digests) same')
          ∙ sym (ap (λ x. policy_digest digests (scanned x)) e)
          ∙ policy_stays digests clock i channel owner row only'
          ∙ ap (policy_digest digests) same
      | inr v ↦
          let k : some row ≡ some new = rw (moved, at_row, v) at at_new in
          let e : row ≡ new = cc in
          sym (ap (policy_digest digests) same')
          ∙ sym (ap (λ x. policy_digest digests (scanned x)) e)
          ∙ ap (policy_digest digests) same
    ]

pub change_runtime-running :
    (digests : Digests) (clock : Clock) (i : Input) (channel owner : String) (c : Runtime) (db : Db)
    (c' : Runtime) (db' : Db)
    → change_runtime clock i channel owner c db ≡ ok (c', db')
    → c.status ≡ "running"
    → read_runtime db c.id ≡ ok c
    → (policy_digest digests c' ≡ policy_digest digests c)
      × (db' ≡ record db {
        runtime_configs =
            update_rows
              (is_version c.id c.version)
              (configured clock i channel owner)
              db.runtime_configs;
      })
unfolding change_runtime
change_runtime-running digests clock i channel owner c db c' db' h runs found =
    fail_if-elim (str_eq c.status "running" && not (scheduling_only c i channel owner)) conflict _ h
      λ allowed h.
        let only : scheduling_only c i channel owner ≡ true =
          ground (arith, eq_iff c.status "running") in
        fail_if-elim (ltb i.expected_version 1 || not (i.expected_version == c.version)) conflict _
          h
          λ _ h.
            let stored = record db {
              runtime_configs =
                  update_rows (is_version c.id c.version) (configured clock i channel owner)
                    db.runtime_configs;
            } in
            >>=-elim (read_runtime stored c.id) _ (rw only at h) λ read k h.
              let a : (read, stored) ≡ (c', db') = ok_inj h in
              (
                ap (policy_digest digests) (sym (ap (λ (x : Runtime × Db). x.0) a))
                    ∙ read_configured digests clock i channel owner c db read found only k,
                sym (ap (λ (x : Runtime × Db). x.1) a),
              )

-- When a runtime that runs, and is what its id names, has been configured anew, its policy is the one
-- under which its workers were given their leases: the digest that CheckWorkLease compares is the
-- same. No task, attempt, action or lease changes.
pub running_policy_stays :
    (digests : Digests) (clock : Clock) (new_id new_principal : String) (given : Input) (db : Db)
    (c c' : Runtime) (db' : Db)
    → configure_runtime clock new_id new_principal given db ≡ ok (c', db')
    → read_runtime db (trim_space given.name) ≡ ok c
    → read_runtime db c.id ≡ ok c
    → c.status ≡ "running"
    → (policy_digest digests c' ≡ policy_digest digests c)
      × (db'.runtime_tasks ≡ db.runtime_tasks)
      × (db'.runtime_attempts ≡ db.runtime_attempts)
      × (db'.runtime_pending_actions ≡ db.runtime_pending_actions)
      × (db'.runtime_work_leases ≡ db.runtime_work_leases)
unfolding configure_runtime
running_policy_stays digests clock new_id new_principal given db c c' db' h known by_id runs =
    >>=-elim (normalize_input given) _ h λ normal n h.
      >>=-elim (read_channel db normal.channel) _ h λ channel _ h.
        >>=-elim (check_routes db _ channel _) _ h λ _ _ h.
          >>=-elim (read_route db _) _ h λ delivery _ h.
            >>=-elim (for_mode db _ channel delivery) _ h λ i m h.
              >>=-elim (principal_for clock new_principal channel.tenant i.owner db) _ h
                λ owner p h. fail_if-elim owner.0.weak denied _ h λ _ h.
                  >>=-elim
                    (if str_eq i.application_mode "direct"
                      then owner_routes owner.1 i channel owner.0.id i.route_ids
                      else ok tt)
                    _ h
                    λ _ _ h.
                      fail_if-elim
                        (str_eq channel.kind "dws_personal"
                          && not (str_eq i.owner.id_type "user_id")
                          && not (str_eq i.owner.id_type "staff_id"))
                        invalid_input _ h
                        λ _ h.
                          let name =
                            for_mode-name db _ channel delivery i m
                            ∙ normalize_input-name given normal n in
                          let met =
                            principal_for-Met clock new_principal channel.tenant i.owner db
                              (owner.0) (owner.1) p in
                          let read : read_runtime (owner.1) i.name ≡ ok c =
                            read-Met db (owner.1) i.name met ∙ ap (read_runtime db) name ∙ known in
                          let (digest, e) =
                            change_runtime-running digests clock i channel.id owner.0.id c (owner.1)
                              c' db' (rw read at h) runs (read-Met db (owner.1) c.id met ∙ by_id) in
                          (
                            digest,
                            ap (λ (x : Db). x.runtime_tasks) e
                                ∙ ap (λ (x : Db). x.runtime_tasks) met.same,
                            ap (λ (x : Db). x.runtime_attempts) e
                                ∙ ap (λ (x : Db). x.runtime_attempts) met.same,
                            ap (λ (x : Db). x.runtime_pending_actions) e
                                ∙ ap (λ (x : Db). x.runtime_pending_actions) met.same,
                            ap (λ (x : Db). x.runtime_work_leases) e
                                ∙ ap (λ (x : Db). x.runtime_work_leases) met.same,
                          )
