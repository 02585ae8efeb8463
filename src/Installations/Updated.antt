-- ===== src/Installations/Updated.antt =====
-- What the steps of an apply do to the tables of the manager.
use langbot_plugin_sdk.Prelude.{
  ◌≡◌, refl, none, some, arith, Bool-cases, Result-cases, inl, inr, ◌&&◌,
}
use langbot_plugin_sdk.Prelude.Dict
use langbot_plugin_sdk.Context.{InstallationBinding, binding_eq}
use langbot_plugin_sdk.Fence.{is_current_installation_binding}
use langbot_plugin_sdk.Registration.{is_shared}
use langbot_plugin_sdk.Installations.{
  Artifact, Installation, Volume, Manager, starting, disabled, put, stop_installation_worker,
  schedule_installation_worker, revoke_installation_runtime,
}
use langbot_plugin_sdk.Installations.Apply.{launch, enable, disable}

-- `m'` has the tables of `m`, but for an entry of `i`'s binding that is enabled as `i` is.
pub record IsUpdate (m : Manager) (i : Installation) (m' : Manager) : Type 0 where
  pub runtime : m'.runtime ≡ m.runtime
  pub active : m'.active_binding_by_uuid ≡ m.active_binding_by_uuid
  pub entry : Installation
  pub binding : entry.binding ≡ i.binding
  pub enabled : entry.enabled ≡ i.enabled
  pub installations : m'.installations ≡ Dict.set m.installations i.binding entry

-- Stopping and scheduling keep the tables, and the binding and the flag of the installation.
pub stop_tables :
    (m : Manager) (i : Installation)
    → let out = stop_installation_worker m i in
      (out.0.runtime ≡ m.runtime)
      × (out.0.active_binding_by_uuid ≡ m.active_binding_by_uuid)
      × (out.0.installations ≡ m.installations)
      × (out.1.binding ≡ i.binding)
      × (out.1.enabled ≡ i.enabled)
unfolding stop_installation_worker
stop_tables m i = ground arith

pub schedule_tables :
    (m : Manager) (i : Installation)
    → let out = schedule_installation_worker m i in
      (out.0.runtime ≡ m.runtime)
      × (out.0.active_binding_by_uuid ≡ m.active_binding_by_uuid)
      × (out.0.installations ≡ m.installations)
      × (out.1.binding ≡ i.binding)
      × (out.1.enabled ≡ i.enabled)
unfolding schedule_installation_worker
schedule_tables m i = ground arith

pub revoke_tables :
    (m : Manager) (b : InstallationBinding)
    → let m' = revoke_installation_runtime m b in
      (m'.runtime ≡ m.runtime)
      × (m'.active_binding_by_uuid ≡ m.active_binding_by_uuid)
      × (m'.installations ≡ Dict.remove m.installations b)
unfolding revoke_installation_runtime stop_installation_worker
revoke_tables m b = ground arith

-- Writing an installation after a change of the tasks alone.
put-IsUpdate :
    (m n : Manager) (i j : Installation)
    → n.runtime ≡ m.runtime
    → n.active_binding_by_uuid ≡ m.active_binding_by_uuid
    → n.installations ≡ m.installations
    → j.binding ≡ i.binding
    → j.enabled ≡ i.enabled
    → IsUpdate m i (put n j)
put-IsUpdate m n i j r a d b e = record {
  runtime = r;
  active = a;
  entry = j;
  binding = b;
  enabled = e;
  installations = ground (arith, d, b);
}

pub launch-IsUpdate : (m : Manager) (i : Installation) → IsUpdate m i (launch m i).0
unfolding launch
launch-IsUpdate m i =
    let (r, a, d, b, e) = schedule_tables m (record i { state = starting }) in
    put-IsUpdate m _ i _ r a d b e

pub disable-IsUpdate : (m : Manager) (i : Installation) → IsUpdate m i (disable m i).0
unfolding disable
disable-IsUpdate m i =
    let (r, a, d, b, e) = stop_tables m (record i { state = disabled; error_code = none }) in
    put-IsUpdate m _ i _ r a d b e

-- The entry of an update is that of an installation with the same binding and flag.
retarget :
    {m m' : Manager} (i j : Installation)
    → j.binding ≡ i.binding
    → j.enabled ≡ i.enabled
    → IsUpdate m j m'
    → IsUpdate m i m'
retarget i j b e u = record {
  runtime = u.runtime;
  active = u.active;
  entry = u.entry;
  binding = ground (arith, u.binding, b);
  enabled = ground (arith, u.enabled, e);
  installations = ground (arith, u.installations, b);
}

pub enable-IsUpdate :
    (m : Manager) (v : Volume) (a : Artifact) (i : Installation) → IsUpdate m i (enable m v a i).0
unfolding enable
enable-IsUpdate m v a i = elim (Bool-cases (is_shared m.runtime)) [
  | inr other ↦
      rw other (retarget i _ refl refl (launch-IsUpdate m (record i { error_code = none })))
  | inl here ↦ rw here (elim (Result-cases (v.prepare_dependency_environment a)) [
    | inr (e, h) ↦
        let (r, t, d, b, f) =
          stop_tables m (record i { error_code = none; dependency_environment = none }) in
        rw h (put-IsUpdate m _ i _ r t d b f)
    | inl (environment, h) ↦
        rw h
          (elim (Bool-cases (
            Dict.contains m.installations i.binding
            && is_current_installation_binding m.runtime i.binding)) [
              | inl current ↦ rw current (
                  retarget i _ refl refl (
                    launch-IsUpdate m
                      (record i { error_code = none; dependency_environment = some environment })))
              | inr stale ↦ rw stale (put-IsUpdate m _ i _ refl refl refl refl refl)
            ])
  ])
]
