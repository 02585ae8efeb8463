-- ===== src/Box/Admission/Grants.antt =====
-- How the admission grants of box/runtime.py are put in and revoked.
use langbot_plugin_sdk.Prelude.{
  ℕ, ◌+◌, max, Bool, ◌&&◌, ◌||◌, not, Option, none, some, is_some, List, [], ◌∷◌, length, leb, ltb,
  if◌then◌else◌, Result, ok, raise, ◌>>◌, raise_if, ◌==◌, nat_eq, string_eq, pair_eq, list_eq,
  option_eq,
}
use langbot_plugin_sdk.Prelude.Dict
use langbot_plugin_sdk.Prelude.Dict.{Dict}
use langbot_plugin_sdk.Box.Tenancy.{Text, Library, namespace_session_id}
use langbot_plugin_sdk.Box.Admission.{
  Key, Grant, Revocation, Policy, Admission, AdmissionError, not_enabled, invalid_configuration,
  grant_expired, lifetime_exceeded, too_many_sessions, too_many_processes, capacity_reached,
  revision_revoked, revision_stale, generation_stale, limits_changed, revocation_stale,
  workspace_key, is_expired, grant_context, get_or, index_admission_expiry, drop_workspace_sessions,
  reap_expired_admissions,
}

-- `upsert_sandbox_admission_grant` before the lock
abbrev pub check_grant : Policy → ℕ → Grant → Result AdmissionError (Unit {0})
check_grant p now g = do
  raise_if (not p.required) not_enabled
  raise_if p.is_invalid invalid_configuration
  raise_if (is_expired g now) grant_expired
  raise_if (ltb (now + p.max_grant_ttl) g.expires_at) lifetime_exceeded
  raise_if (ltb p.max_sessions g.max_sessions) too_many_sessions
  raise_if (ltb p.max_managed_processes g.max_managed_processes) too_many_processes

abbrev pub is_full : ℕ → Admission → Key → Bool
is_full max_records s key =
    not (Dict.contains s.admission_revisions key) && leb max_records (length s.admission_revisions)

abbrev pub limit_fingerprint : Grant → ℕ × ℕ
limit_fingerprint g = (g.max_sessions, g.max_managed_processes)

-- The tests under the lock
abbrev pub check_revision : ℕ → Admission → Grant → Result AdmissionError (Unit {0})
check_revision max_records s g =
    let key = workspace_key g in
    do
      raise_if (is_full max_records s key) capacity_reached
      raise_if (leb g.entitlement_revision (get_or s.revoked_admission_revisions key 0))
          revision_revoked
      raise_if (ltb g.entitlement_revision (get_or s.admission_revisions key 0)) revision_stale
      raise_if (ltb g.execution_generation (get_or s.admission_generations key 0)) generation_stale
      raise_if
          (g.entitlement_revision == get_or s.admission_revisions key 0
            && (is_some (Dict.get s.admission_limit_fingerprints key)
                && not (Dict.get s.admission_limit_fingerprints key == some (limit_fingerprint g))))
          limits_changed

-- A shorter duplicate of the grant that is there is not installed.
abbrev pub is_shorter : Grant → Grant → Bool
is_shorter current g =
    g.entitlement_revision == current.entitlement_revision
    && (g.execution_generation == current.execution_generation
        && ltb g.expires_at current.expires_at)

abbrev pub keep_id : Option Text → List Text → List Text
keep_id canonical [] = []
keep_id canonical (id ∷ ids) =
    let rest = keep_id canonical ids in if some id == canonical then id ∷ rest else rest

module _ (l : Library) where
  -- The sessions of other names are dropped.
  unfoldable pub drop_other_sessions : Admission → Grant → Admission
  unfolding namespace_session_id
  drop_other_sessions s g =
      let key = workspace_key g in
      let canonical =
        namespace_session_id l (grant_context g) (b'g' ∷ b'l' ∷ b'o' ∷ b'b' ∷ b'a' ∷ b'l' ∷ []) in
      elim (Dict.get s.session_ids_by_workspace key) [
        | none ↦ s
        | some ids ↦ elim (keep_id canonical ids) [
          | [] ↦ drop_workspace_sessions s key
          | id ∷ more ↦ record s {
            session_ids_by_workspace = Dict.set s.session_ids_by_workspace key (id ∷ more);
          }
        ]
      ]

  unfoldable pub install : Admission → Grant → Admission
  unfolding index_admission_expiry drop_workspace_sessions drop_other_sessions
  install s g =
      let key = workspace_key g in
      let current = Dict.get s.admission_grants key in
      let indexed =
        index_admission_expiry (record s { admission_grants = Dict.set s.admission_grants key g })
          g in
      let s' = record indexed {
        admission_revisions = Dict.set s.admission_revisions key g.entitlement_revision;
        admission_generations = Dict.set s.admission_generations key g.execution_generation;
        admission_limit_fingerprints =
            Dict.set s.admission_limit_fingerprints key (limit_fingerprint g);
      } in
      elim current [
        | none ↦ drop_workspace_sessions s' key
        | some c ↦
            if not (c.execution_generation == g.execution_generation) || g.max_sessions == 0
            then drop_workspace_sessions s' key
            else drop_other_sessions s' g
      ]

  unfoldable pub put_grant : Admission → Grant → Admission × Grant
  unfolding install
  put_grant s g = elim (Dict.get s.admission_grants (workspace_key g)) [
    | none ↦ (install s g, g)
    | some c ↦ if is_shorter c g then (s, c) else (install s g, g)
  ]

  -- `upsert_sandbox_admission_grant`, up to the cleanup of the sessions that it drops: the grant that
  -- is in force then.
  unfoldable pub upsert_sandbox_admission_grant :
      Policy → ℕ → ℕ → Admission → Grant → Admission × Result AdmissionError Grant
  unfolding reap_expired_admissions put_grant
  upsert_sandbox_admission_grant p max_records now s g = elim (check_grant p now g) [
    | raise e ↦ (s, raise e)
    | ok checked ↦
        let s' = reap_expired_admissions now s in
        elim (check_revision max_records s' g) [
          | raise e ↦ (s', raise e)
          | ok done ↦ ((put_grant s' g).0, ok (put_grant s' g).1)
        ]
  ]

abbrev pub revocation_key : Revocation → Key
revocation_key r = (r.instance_uuid, r.workspace_uuid)

-- `revoke_sandbox_admission_grant`, up to the cleanup of the sessions
unfoldable pub revoke_sandbox_admission_grant :
    Policy → ℕ → Admission → Revocation → Admission × Result AdmissionError (Unit {0})
unfolding drop_workspace_sessions
revoke_sandbox_admission_grant p max_records s r =
    let key = revocation_key r in
    let highest = get_or s.admission_revisions key 0 in
    let revoked = get_or s.revoked_admission_revisions key 0 in
    if not p.required
    then (s, raise not_enabled)
    else if is_full max_records s key
    then (s, raise capacity_reached)
    else if ltb r.entitlement_revision (max highest revoked)
    then (s, raise revocation_stale)
    else (
      drop_workspace_sessions
          (record s {
            admission_grants = Dict.remove s.admission_grants key;
            admission_revisions =
                Dict.set s.admission_revisions key (max highest r.entitlement_revision);
            revoked_admission_revisions =
                Dict.set s.revoked_admission_revisions key (max revoked r.entitlement_revision);
          })
          key,
      ok tt,
    )
