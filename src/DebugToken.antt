-- ===== src/DebugToken.antt =====
-- `WorkspaceDebugTokenStore` of src/langbot_plugin/runtime/security.py: one random debug credential
-- for each Workspace. Times are seconds of the clock; the random token of a call is an argument, and
-- `strip` is Python's `str.strip`.
pub mod Resolve
mod Tests
use langbot_plugin_sdk.Prelude.{
  ℕ, ◌+◌, ◌≡◌, Bool, true, false, ◌&&◌, ◌||◌, not, Option, none, some, List, [], ◌∷◌, leb,
  if◌then◌else◌, ◌==◌, nat_eq, string_eq, option_eq, String, Result, ok, raise,
}
use langbot_plugin_sdk.Prelude.Dict
use langbot_plugin_sdk.Prelude.Dict.{Dict}

-- A binding as far as the store reads it; `none` is a missing attribute.
pub record Binding : Type 0 where
  pub workspace_uuid : String
  pub instance_uuid : Option String
  pub placement_generation : Option ℕ

pub record Credential : Type 0 where
  pub token : String
  pub expires : ℕ
  pub binding : Binding

pub record Store : Type 0 where
  pub ttl_seconds : ℕ
  pub credentials : Dict String Credential

pub data TokenError : Type 0 where
  no_workspace : TokenError

-- Another instance or generation of the Workspace.
abbrev pub is_rotated : Binding → Binding → Bool
is_rotated existing binding =
    not (existing.instance_uuid == binding.instance_uuid)
    || not (existing.placement_generation == binding.placement_generation)

-- The token and the expiry that a call issues: those of the entry, or new ones.
unfoldable pub current_token : Store → ℕ → String → Binding → Option Credential → String × ℕ
current_token s now random binding none = (random, now + s.ttl_seconds)
current_token s now random binding (some c) =
    if is_rotated c.binding binding || (c.token == "" || leb c.expires now)
    then (random, now + s.ttl_seconds)
    else (c.token, c.expires)

-- The token with its expiry, and the store.
unfoldable pub issue :
    (String → String) → Store → ℕ → String → Binding → Result TokenError (String × ℕ × Store)
unfolding current_token
issue strip s now random binding =
    let workspace_uuid = strip binding.workspace_uuid in
    let issued = current_token s now random binding (Dict.get s.credentials workspace_uuid) in
    if workspace_uuid == ""
    then raise no_workspace
    else ok (
      issued.0,
      issued.1,
      record s {
        credentials =
            Dict.set s.credentials workspace_uuid
              (record { token = issued.0; expires = issued.1; binding = binding });
      },
    )

-- The loop of `binding_for_token` over the items that it copied, with the dictionary.
unfoldable pub find_token :
    ℕ
    → String
    → Dict String Credential
    → Dict String Credential
    → Option Binding × Dict String Credential
find_token now supplied [] credentials = (none, credentials)
find_token now supplied ((workspace_uuid, c) ∷ items) credentials =
    let expired = find_token now supplied items (Dict.remove credentials workspace_uuid) in
    let other = find_token now supplied items credentials in
    if leb c.expires now
    then expired
    else if c.token == supplied
    then (some c.binding, credentials)
    else other

unfoldable pub binding_for_token : Store → ℕ → String → Option Binding × Store
unfolding find_token
binding_for_token s now supplied =
    let found = find_token now supplied s.credentials s.credentials in
    if supplied == "" then (none, s) else (found.0, record s { credentials = found.1 })
