-- ===== src/Registration.antt =====
-- The capabilities of runtime/plugin/mgr.py with which a plugin that the runtime launches registers
-- itself. A time is a number of milliseconds; the random token of a call is an argument, `strip` is
-- Python's `str.strip` and `abspath` is `os.path.abspath`. A capability that is supplied is ASCII:
-- for another one `compare_digest` raises.
pub mod Events
pub mod Once
pub mod Provenance
mod Tests
use langbot_plugin_sdk.Prelude.{
  ℕ, ◌+◌, ◌*◌, max, String, Bool, true, false, ◌&&◌, ◌||◌, not, Option, none, some, is_some, List,
  [], ◌∷◌, length, leb, if◌then◌else◌, Result, ok, raise, ◌>>=◌, ◌>>◌, raise_if, ◌==◌, string_eq,
  option_eq,
}
use langbot_plugin_sdk.Prelude.Dict
use langbot_plugin_sdk.Prelude.Dict.{Dict}
use langbot_plugin_sdk.Context.{InstallationBinding, binding_eq}
use langbot_plugin_sdk.Context.Policy.{WorkerPolicy, effective_worker_capacity}
use langbot_plugin_sdk.Fence.{
  Runtime, Profile, shared, profile_beq, is_current_installation_binding,
}

abbrev pub registration_capability_ttl : ℕ
registration_capability_ttl = 300_000

-- `_PendingPluginRegistration`
pub record Registration : Type 0 where
  pub plugin_author : String
  pub plugin_name : String
  pub plugin_path : String
  pub binding : Option InstallationBinding
  pub expires_at : ℕ

abbrev pub Pending : Type 0
Pending = Dict String Registration

pub data RegistrationError : Type 0 where
  incomplete_identity binding_required binding_not_current capacity_reached : RegistrationError
  invalid_capability other_identity : RegistrationError

-- What the code uses of Python's library.
pub record Library : Type 0 where
  pub strip : String → String
  pub abspath : String → String

-- What a launch asks a capability for.
pub record Launch : Type 0 where
  pub plugin_author : String
  pub plugin_name : String
  pub plugin_path : String
  pub binding : Option InstallationBinding

unfoldable pub expired_keys : ℕ → Pending → List String
expired_keys now [] = []
expired_keys now ((key, registration) ∷ pending) =
    let rest = expired_keys now pending in
    if leb registration.expires_at now then key ∷ rest else rest

-- The loop of pops
unfoldable pub remove_keys : Pending → List String → Pending
remove_keys pending [] = pending
remove_keys pending (key ∷ keys) = remove_keys (Dict.remove pending key) keys

unfoldable pub prune_expired : ℕ → Pending → Pending
unfolding expired_keys remove_keys
prune_expired now pending = remove_keys pending (expired_keys now pending)

unfoldable pub pending_limit : Option WorkerPolicy → ℕ
unfolding effective_worker_capacity
pending_limit policy = max (elim policy [ some p ↦ effective_worker_capacity p * 2 | none ↦ 0 ]) 32

-- `runtime_profile == "shared"`
abbrev pub is_shared : Runtime → Bool
is_shared r = elim r.runtime_profile [ some p ↦ profile_beq p shared | none ↦ false ]

abbrev pub check_binding :
    Runtime → Option InstallationBinding → Result RegistrationError (Unit {0})
check_binding r none = if is_shared r then raise binding_required else ok tt
check_binding r (some b) =
    if is_current_installation_binding r b then ok tt else raise binding_not_current

-- The registration is gone also where its identity is another one.
unfoldable pub take_registration :
    String → String → Pending → String → Pending × Result RegistrationError Registration
take_registration plugin_author plugin_name pending key = elim (Dict.get pending key) [
  | none ↦ (pending, raise invalid_capability)
  | some registration ↦
      if not (registration.plugin_author == plugin_author)
        || not (registration.plugin_name == plugin_name)
      then (Dict.remove pending key, raise other_identity)
      else (Dict.remove pending key, ok registration)
]

module _ (l : Library) where
  abbrev pub registration_of : ℕ → Launch → Registration
  registration_of now a = record {
    plugin_author = l.strip a.plugin_author;
    plugin_name = l.strip a.plugin_name;
    plugin_path = l.abspath a.plugin_path;
    binding = a.binding;
    expires_at = now + registration_capability_ttl;
  }

  abbrev pub check_launch : Runtime → Launch → Result RegistrationError (Unit {0})
  check_launch r a = do
    raise_if (l.strip a.plugin_author == "" || l.strip a.plugin_name == "") incomplete_identity
    check_binding r a.binding

  -- `_issue_registration_capability`; what is pruned stays pruned if the capacity is reached.
  unfoldable pub issue_registration_capability :
      Runtime → ℕ → String → Launch → Pending → Pending × Result RegistrationError String
  unfolding prune_expired pending_limit
  issue_registration_capability r now token a pending =
      let pruned = prune_expired now pending in
      elim (check_launch r a) [
        | raise e ↦ (pending, raise e)
        | ok checked ↦
            if leb (pending_limit r.worker_policy) (length pruned)
            then (pruned, raise capacity_reached)
            else (Dict.set pruned token (registration_of now a), ok token)
      ]

  -- The key, and what is left after the expired ones are pruned.
  unfoldable pub find_pending_registration_key : ℕ → String → Pending → Pending × Option String
  unfolding prune_expired
  find_pending_registration_key now capability pending =
      let supplied = l.strip capability in
      let pruned = prune_expired now pending in
      if supplied == ""
      then (pending, none)
      else if Dict.contains pruned supplied
      then (pruned, some supplied)
      else (pruned, none)

  unfoldable pub is_registration_capability_pending : ℕ → String → Pending → Pending × Bool
  unfolding find_pending_registration_key
  is_registration_capability_pending now capability pending =
      let found = find_pending_registration_key now capability pending in (found.0, is_some found.1)

  unfoldable pub consume_registration_capability :
      ℕ → String → String → String → Pending → Pending × Result RegistrationError Registration
  unfolding find_pending_registration_key take_registration
  consume_registration_capability now capability plugin_author plugin_name pending =
      let found = find_pending_registration_key now capability pending in
      elim found.1 [
        | none ↦ (found.0, raise invalid_capability)
        | some key ↦ take_registration plugin_author plugin_name found.0 key
      ]

  unfoldable pub revoke_registration_capability : ℕ → String → Pending → Pending
  unfolding find_pending_registration_key
  revoke_registration_capability now capability pending =
      let found = find_pending_registration_key now capability pending in
      elim found.1 [ none ↦ found.0 | some key ↦ Dict.remove found.0 key ]

unfoldable pub bound_keys : InstallationBinding → Pending → List String
bound_keys b [] = []
bound_keys b ((key, registration) ∷ pending) =
    let rest = bound_keys b pending in if registration.binding == some b then key ∷ rest else rest

unfoldable pub revoke_registration_capabilities_for_binding :
    InstallationBinding → Pending → Pending
unfolding bound_keys remove_keys
revoke_registration_capabilities_for_binding b pending = remove_keys pending (bound_keys b pending)
