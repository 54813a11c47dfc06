-- ===== src/Configure/Names.antt =====
-- core/runtime.go: the name under which ConfigureRuntime looks a runtime up, and what meeting its owner
-- leaves.
use memgov.Base.{
  ◌≡◌, refl, sym, ap, String, not, ◌&&◌, ◌||◌, ok, str_eq, Bool-cases, inl, inr, >>=-elim,
  fail_if-elim, ok_inj, denied, invalid_input, trim_space, contains,
}
use memgov.Schema.{Db}
use memgov.Policy.{read_runtime}
use memgov.Schema.Channels.{Channel, Route}
use memgov.Intake.People.{Met}
use memgov.Work.Limits.{normalize}
use memgov.Tasks.Approval.{is_group_reply}
use memgov.Configure.{
  Input, normalize_input, with_defaults_of, check_identity, check_actions, check_models,
  out_of_range,
}
use memgov.Configure.Checks.{for_mode, for_group, for_owner, context_of}

pub normalize_input-name :
    (given i : Input) → normalize_input given ≡ ok i → i.name ≡ trim_space given.name
unfolding normalize_input with_defaults_of
normalize_input-name given i h = >>=-elim (check_identity (with_defaults_of given)) _ h λ _ _ h.
    >>=-elim (check_actions (with_defaults_of given)) _ h λ _ _ h.
      >>=-elim (check_models (with_defaults_of given)) _ h λ _ _ h.
        >>=-elim (normalize _ _) _ h λ limits _ h.
          fail_if-elim (out_of_range (with_defaults_of given)) invalid_input _ h
            λ _ h. sym (ap (λ (x : Input). x.name) (ok_inj h))

for_group-name :
    (db : Db) (i : Input) (c : Channel) (delivery : Route) (i' : Input)
    → for_group db i c delivery ≡ ok i'
    → i'.name ≡ i.name
unfolding for_group
for_group-name db i c delivery i' h =
    fail_if-elim (not (str_eq c.kind "dingtalk_app") || not (is_group_reply delivery)) denied _ h
      λ _ h. fail_if-elim (not (contains i.route_ids delivery.id)) invalid_input _ h λ _ h.
        >>=-elim (context_of db i c delivery) _ h
          λ context _ h. sym (ap (λ (x : Input). x.name) (ok_inj h))

for_owner-name :
    (i : Input) (delivery : Route) (i' : Input) → for_owner i delivery ≡ ok i' → i'.name ≡ i.name
unfolding for_owner
for_owner-name i delivery i' h =
    fail_if-elim
      (str_eq i.application_mode "direct"
        && (not (str_eq delivery.conversation_type "direct")
            || not (str_eq delivery.send_policy "dispatch_only")))
      denied _ h λ _ h. sym (ap (λ (x : Input). x.name) (ok_inj h))

pub for_mode-name :
    (db : Db) (i : Input) (c : Channel) (delivery : Route) (i' : Input)
    → for_mode db i c delivery ≡ ok i'
    → i'.name ≡ i.name
unfolding for_mode
for_mode-name db i c delivery i' h = elim (Bool-cases (str_eq i.application_mode "group_mention")) [
  | inl e ↦ for_group-name db i c delivery i' (rw e at h)
  | inr e ↦ for_owner-name i delivery i' (rw e at h)
]

pub read-Met :
    (db met : Db) (value : String) → Met db met → read_runtime met value ≡ read_runtime db value
unfolding read_runtime
read-Met db met value k = rw (ap (λ (x : Db). x.runtime_configs) k.same) refl
