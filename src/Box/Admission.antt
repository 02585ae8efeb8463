-- ===== src/Box/Admission.antt =====
-- The admission grants of box/runtime.py, with box/models.py. Every operation is the code that holds
-- the lock; a time is the number of microseconds. A heap of heapq is given by its entries in the
-- order in which they are popped. The index of sessions holds no session that is being closed.
pub mod Grants
pub mod Events
pub mod Revoked
pub mod Heap
pub mod Expired
use langbot_plugin_sdk.Prelude.{
  ℕ, ◌+◌, ◌*◌, max, String, Bool, true, false, ◌&&◌, ◌||◌, not, Option, none, some, is_some, List,
  [], ◌∷◌, length, leb, ltb, if◌then◌else◌, Result, ok, raise, ◌>>=◌, ◌>>◌, raise_if, ◌==◌, nat_eq,
  string_eq, pair_eq, list_eq, option_eq,
}
use langbot_plugin_sdk.Prelude.Dict
use langbot_plugin_sdk.Prelude.Dict.{Dict}
use langbot_plugin_sdk.Context.{ActionContext}
use langbot_plugin_sdk.Box.Tenancy.{Text, Library, namespace_session_id}

-- An instance and a Workspace
abbrev pub Key : Type 0
Key = String × String

pub record Grant : Type 0 where
  pub instance_uuid : String
  pub workspace_uuid : String
  pub execution_generation : ℕ
  pub entitlement_revision : ℕ
  pub expires_at : ℕ
  pub max_sessions : ℕ
  pub max_managed_processes : ℕ

pub record Revocation : Type 0 where
  pub instance_uuid : String
  pub workspace_uuid : String
  pub entitlement_revision : ℕ

-- The fields of `SandboxAdmissionPolicy` that admission reads; `logical_session_id` is "global".
pub record Policy : Type 0 where
  pub required : Bool
  pub is_invalid : Bool
  pub max_sessions : ℕ
  pub max_managed_processes : ℕ
  pub max_grant_ttl : ℕ

pub record Entry : Type 0 where
  pub expires_at : ℕ
  pub key : Key
  pub revision : ℕ
  pub generation : ℕ

pub record Admission : Type 0 where
  pub admission_grants : Dict Key Grant
  pub admission_expiry_heap : List Entry
  pub admission_revisions : Dict Key ℕ
  pub admission_generations : Dict Key ℕ
  pub admission_limit_fingerprints : Dict Key (ℕ × ℕ)
  pub revoked_admission_revisions : Dict Key ℕ
  pub session_ids_by_workspace : Dict Key (List Text)

pub data AdmissionError : Type 0 where
  not_enabled invalid_configuration grant_missing grant_expired other_generation no_sessions :
      AdmissionError
  exceeds_policy lifetime_exceeded too_many_sessions too_many_processes capacity_reached :
      AdmissionError
  revision_revoked revision_stale generation_stale limits_changed revocation_stale : AdmissionError

abbrev pub workspace_key : Grant → Key
workspace_key g = (g.instance_uuid, g.workspace_uuid)

abbrev pub is_expired : Grant → ℕ → Bool
is_expired g now = leb g.expires_at now

abbrev pub context_key : ActionContext → Key
context_key c = (c.instance_uuid, c.workspace_uuid)

abbrev pub grant_context : Grant → ActionContext
grant_context g = record {
  instance_uuid = g.instance_uuid;
  workspace_uuid = g.workspace_uuid;
  placement_generation = g.execution_generation;
  installation_uuid = none;
}

abbrev pub entry_of : Grant → Entry
entry_of g = record {
  expires_at = g.expires_at;
  key = workspace_key g;
  revision = g.entitlement_revision;
  generation = g.execution_generation;
}

-- `heapq.heappush`
unfoldable pub heappush : List Entry → Entry → List Entry
heappush [] e = e ∷ []
heappush (f ∷ heap) e =
    let rest = heappush heap e in if ltb e.expires_at f.expires_at then e ∷ f ∷ heap else f ∷ rest

-- `heapq.heapify` of the entries of all grants
unfoldable pub heapify_grants : Dict Key Grant → List Entry
heapify_grants [] = []
heapify_grants ((k, g) ∷ grants) = heappush (heapify_grants grants) (entry_of g)

abbrev pub get_or : Dict Key ℕ → Key → ℕ → ℕ
get_or d k n = elim (Dict.get d k) [ none ↦ n | some v ↦ v ]

unfoldable pub index_admission_expiry : Admission → Grant → Admission
index_admission_expiry s g =
    let heap = heappush s.admission_expiry_heap (entry_of g) in
    let compact_limit = length s.admission_grants * 2 + 1024 in
    if leb (length heap) compact_limit
    then record s { admission_expiry_heap = heap }
    else record s { admission_expiry_heap = heapify_grants s.admission_grants }

unfoldable pub drop_workspace_sessions : Admission → Key → Admission
drop_workspace_sessions s key = record s {
  session_ids_by_workspace = Dict.remove s.session_ids_by_workspace key;
}

-- The grant of an entry that was popped, if it is the one that the entry was made for.
abbrev pub is_due : ℕ → Entry → Grant → Bool
is_due now e g =
    g.expires_at == e.expires_at
    && (g.entitlement_revision == e.revision
        && (g.execution_generation == e.generation && is_expired g now))

-- One turn of the loop of `_reap_expired_admissions_locked`, after the entry is popped.
unfoldable pub reap_entry : ℕ → Admission → Entry → Admission
unfolding drop_workspace_sessions
reap_entry now s e = elim (Dict.get s.admission_grants e.key) [
  | none ↦ s
  | some g ↦
      if is_due now e g
      then drop_workspace_sessions
          (record s { admission_grants = Dict.remove s.admission_grants e.key })
          (context_key (grant_context g))
      else s
]

unfoldable pub reap_from : ℕ → Admission → List Entry → Admission
unfolding reap_entry
reap_from now s [] = record s { admission_expiry_heap = [] }
reap_from now s (e ∷ heap) =
    let rest = reap_from now (reap_entry now s e) heap in
    if leb e.expires_at now then rest else record s { admission_expiry_heap = e ∷ heap }

unfoldable pub reap_expired_admissions : ℕ → Admission → Admission
unfolding reap_from
reap_expired_admissions now s = reap_from now s s.admission_expiry_heap

unfoldable pub require_admission :
    Policy → ℕ → Admission → ActionContext → Result AdmissionError Grant
require_admission p now s c = do
  raise_if (not p.required) not_enabled
  raise_if p.is_invalid invalid_configuration
  grant ← (elim (Dict.get s.admission_grants (context_key c)) [
    | none ↦ raise grant_missing
    | some g ↦ ok g
  ])
  raise_if (is_expired grant now) grant_expired
  raise_if (not (grant.execution_generation == c.placement_generation)) other_generation
  raise_if (grant.max_sessions == 0) no_sessions
  raise_if
      (ltb p.max_sessions grant.max_sessions
        || ltb p.max_managed_processes grant.max_managed_processes)
      exceeds_policy
  ok grant

-- `require_sandbox_admission`, once the backend is ready
unfoldable pub require_sandbox_admission :
    Policy → ℕ → Admission → ActionContext → Admission × Result AdmissionError Grant
unfolding reap_expired_admissions require_admission
require_sandbox_admission p now s c =
    let s' = reap_expired_admissions now s in (s', require_admission p now s' c)
