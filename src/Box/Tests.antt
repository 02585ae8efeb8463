-- ===== src/Box/Tests.antt =====
-- Runs of the model of box/runtime.py and box/tenancy.py at concrete inputs.
use langbot_plugin_sdk.Prelude.{
  ℕ, zero, suc, ◌<◌, ◌≡◌, ◌↔◌, refl, sym, ap, ◌∙◌, ◌++◌, length, lstrip, rstrip, true, false, none,
  some, List, [], ◌∷◌, string_eq, pair_eq,
}
use langbot_plugin_sdk.Prelude.Dict
use langbot_plugin_sdk.Context.{ActionContext}
use langbot_plugin_sdk.Box.Tenancy.{
  Text, Library, dash_runs, box_namespace, box_runtime_namespace, safe_id, namespace_session_id,
  session_namespace_prefix, session_belongs_to_placement, logical_session_id,
}
use langbot_plugin_sdk.Box.Tenancy.Separate.{every, is_digit, IsLibrary, belongs_once}
use langbot_plugin_sdk.Box.Tenancy.Named.{logical-namespace}
use langbot_plugin_sdk.Box.Admission.{
  Grant, Revocation, Policy, Admission, heappush, heapify_grants, index_admission_expiry,
  drop_workspace_sessions, reap_entry, reap_from, reap_expired_admissions, require_admission,
  require_sandbox_admission,
}
use langbot_plugin_sdk.Box.Admission.Grants.{
  drop_other_sessions, install, put_grant, upsert_sandbox_admission_grant,
  revoke_sandbox_admission_grant,
}
use langbot_plugin_sdk.Box.Admission.Events.{Event, upserting, step, run, new}
use langbot_plugin_sdk.Box.Admission.Revoked.{revoked_for_good}
use langbot_plugin_sdk.Box.Admission.Expired.{reap_exact}

program : Unit {0}
unfolding heappush heapify_grants index_admission_expiry drop_workspace_sessions reap_entry
    reap_from reap_expired_admissions require_admission require_sandbox_admission
    drop_other_sessions install put_grant upsert_sandbox_admission_grant
    revoke_sandbox_admission_grant step run Dict.get Dict.set Dict.remove dash_runs box_namespace
    box_runtime_namespace safe_id namespace_session_id session_namespace_prefix
    session_belongs_to_placement logical_session_id lstrip rstrip
program = tt

abbrev repeat : ℕ → ℕ → Text
repeat zero c = []
repeat (suc n) c = c ∷ repeat n c

-- A number is written in base one.
abbrev library : Library
library = record { sha256 = λ i w. repeat 64 b'0'; decimal = λ n. repeat n b'1'; strip = λ t. t }

abbrev policy : Policy
policy = record {
  required = true;
  is_invalid = false;
  max_sessions = 1;
  max_managed_processes = 0;
  max_grant_ttl = 300;
}

abbrev grant : ℕ → ℕ → Grant
grant revision expires_at = record {
  instance_uuid = "i";
  workspace_uuid = "w";
  execution_generation = 1;
  entitlement_revision = revision;
  expires_at = expires_at;
  max_sessions = 1;
  max_managed_processes = 0;
}

abbrev revocation : Revocation
revocation = record { instance_uuid = "i"; workspace_uuid = "w"; entitlement_revision = 1 }

abbrev context : ActionContext
context = record {
  instance_uuid = "i";
  workspace_uuid = "w";
  placement_generation = 1;
  installation_uuid = none;
}

-- Revision 1 is granted, revoked, granted again in vain, and followed by revision 2.
abbrev granted : Admission
granted = run library new (upserting policy 10 0 (grant 1 100) ∷ [])

abbrev retries : List Event
retries = upserting policy 10 1 (grant 1 200) ∷ upserting policy 10 2 (grant 2 200) ∷ []

revoked_for_good_example : 1 < 2
unfolding program
revoked_for_good_example =
    revoked_for_good library policy policy 10 3 granted revocation retries context (grant 2 200)
      refl refl refl

-- Two grants that expire one after the other.
abbrev renewals : List Event
renewals = upserting policy 10 0 (grant 1 100) ∷ upserting policy 10 50 (grant 1 200) ∷ []

reap_exact_example :
    (Dict.get (reap_expired_admissions 150 (run library new renewals)).admission_grants ("i", "w")
      ≡ some (grant 1 200))
    ↔ ((Dict.get (run library new renewals).admission_grants ("i", "w") ≡ some (grant 1 200))
        × (150 < 200))
reap_exact_example = reap_exact library renewals 150 ("i", "w") (grant 1 200)

renewed_grant_stays :
    Dict.get (reap_expired_admissions 150 (run library new renewals)).admission_grants ("i", "w")
    ≡ some (grant 1 200)
unfolding program
renewed_grant_stays = refl

repeat-digits : (n : ℕ) → every is_digit (repeat n b'1') ≡ true
repeat-digits zero = refl
repeat-digits (suc n) = repeat-digits n

length-repeat : (n c : ℕ) → length (repeat n c) ≡ n
length-repeat zero c = refl
length-repeat (suc n) c = ap suc (length-repeat n c)

library-IsLibrary : IsLibrary library
library-IsLibrary = record {
  sha256_length = λ i w. refl;
  sha256_chars = λ i w. refl;
  decimal_digits = repeat-digits;
  decimal_injective = λ m n h. sym (length-repeat m b'1') ∙ ap length h ∙ length-repeat n b'1';
  strip_keeps = λ t h. refl;
}

-- The session "a?" is called "a" in the placement.
abbrev name : Text
name = b'w' ∷ b's' ∷ b'-' ∷ (repeat 24 b'0' ++ b'-' ∷ b'g' ∷ b'1' ∷ b'-' ∷ b'a' ∷ [])

belongs_once_example :
    (box_namespace library context ≡ box_namespace library context)
    × (context.placement_generation ≡ context.placement_generation)
unfolding program
belongs_once_example = belongs_once library library-IsLibrary context context name refl refl

logical-namespace_example :
    (safe_id library (b'a' ∷ b'?' ∷ []) ≡ some (logical_session_id library context name))
    × (session_belongs_to_placement library context name ≡ true)
unfolding program
logical-namespace_example =
    logical-namespace library library-IsLibrary context (b'a' ∷ b'?' ∷ []) name refl
