-- ===== src/Context.antt =====
-- src/langbot_plugin/entities/io/context.py: the identities that travel beside an action. `Policy`
-- is the worker policy.
pub mod Policy
mod Tests
use langbot_plugin_sdk.Prelude.{
  ℕ, String, ◌≡◌, ◌↔◌, refl, Bool, true, false, ◌&&◌, Option, none, some, arith, Eq, ◌==◌, nat_eq,
  string_eq, option_eq, option_beq_iff,
}

pub record RuntimeIdentity : Type 0 where
  pub instance_uuid : String
  pub runtime_id : String

pub record ActionContext : Type 0 where
  pub instance_uuid : String
  pub workspace_uuid : String
  pub placement_generation : ℕ
  pub installation_uuid : Option String

pub record InstallationBinding : Type 0 where
  pub instance_uuid : String
  pub workspace_uuid : String
  pub placement_generation : ℕ
  pub installation_uuid : String
  pub runtime_revision : ℕ
  pub artifact_digest : String

-- `ActionEnvelopeContext`, by the class of the value
pub data Envelope : Type 0 where
  workspace : ActionContext → Envelope
  installation : InstallationBinding → Envelope

-- An `InstallationBinding` read through its base class.
abbrev pub as_action_context : Envelope → ActionContext
as_action_context (workspace c) = c
as_action_context (installation b) = record {
  instance_uuid = b.instance_uuid;
  workspace_uuid = b.workspace_uuid;
  placement_generation = b.placement_generation;
  installation_uuid = some b.installation_uuid;
}

unfoldable pub same_workspace : ActionContext → ActionContext → Bool
same_workspace a b =
    a.instance_uuid == b.instance_uuid
    && a.workspace_uuid == b.workspace_uuid
    && a.placement_generation == b.placement_generation

unfoldable pub for_installation : ActionContext → Option String → ActionContext
for_installation c id = record c { installation_uuid = id }

unfoldable pub without_installation : ActionContext → ActionContext
without_installation c = record c { installation_uuid = none }

-- The `==` that pydantic derives: equal class and equal fields.
abbrev pub identity_beq : RuntimeIdentity → RuntimeIdentity → Bool
identity_beq a b = a.instance_uuid == b.instance_uuid && a.runtime_id == b.runtime_id

pub identity_beq_iff : (a b : RuntimeIdentity) → (identity_beq a b ≡ true) ↔ (a ≡ b)
identity_beq_iff a b = ground (
  arith,
  string_eq.equal_iff a.instance_uuid b.instance_uuid,
  string_eq.equal_iff a.runtime_id b.runtime_id,
)

abbrev pub context_beq : ActionContext → ActionContext → Bool
context_beq a b =
    a.instance_uuid == b.instance_uuid
    && a.workspace_uuid == b.workspace_uuid
    && a.placement_generation == b.placement_generation
    && a.installation_uuid == b.installation_uuid

pub context_beq_iff : (a b : ActionContext) → (context_beq a b ≡ true) ↔ (a ≡ b)
context_beq_iff a b = ground (
  arith,
  string_eq.equal_iff a.instance_uuid b.instance_uuid,
  string_eq.equal_iff a.workspace_uuid b.workspace_uuid,
  option_beq_iff a.installation_uuid b.installation_uuid,
)

-- `same_installation`, which is this equality
abbrev pub binding_beq : InstallationBinding → InstallationBinding → Bool
binding_beq a b =
    a.instance_uuid == b.instance_uuid
    && a.workspace_uuid == b.workspace_uuid
    && a.placement_generation == b.placement_generation
    && a.installation_uuid == b.installation_uuid
    && a.runtime_revision == b.runtime_revision
    && a.artifact_digest == b.artifact_digest

pub binding_beq_iff : (a b : InstallationBinding) → (binding_beq a b ≡ true) ↔ (a ≡ b)
binding_beq_iff a b = ground (
  arith,
  string_eq.equal_iff a.instance_uuid b.instance_uuid,
  string_eq.equal_iff a.workspace_uuid b.workspace_uuid,
  string_eq.equal_iff a.installation_uuid b.installation_uuid,
  string_eq.equal_iff a.artifact_digest b.artifact_digest,
)

instance abbrev pub identity_eq : Eq RuntimeIdentity
identity_eq = record { equal = identity_beq; equal_iff = identity_beq_iff }

instance abbrev pub context_eq : Eq ActionContext
context_eq = record { equal = context_beq; equal_iff = context_beq_iff }

instance abbrev pub binding_eq : Eq InstallationBinding
binding_eq = record { equal = binding_beq; equal_iff = binding_beq_iff }

-- Two contexts of different classes are never equal.
abbrev pub envelope_beq : Envelope → Envelope → Bool
envelope_beq (workspace a) (workspace b) = a == b
envelope_beq (workspace a) (installation b) = false
envelope_beq (installation a) (workspace b) = false
envelope_beq (installation a) (installation b) = a == b

pub envelope_beq_iff : (a b : Envelope) → (envelope_beq a b ≡ true) ↔ (a ≡ b)
envelope_beq_iff (workspace a) (workspace b) = ground (arith, context_beq_iff a b)
envelope_beq_iff (workspace a) (installation b) = ground arith
envelope_beq_iff (installation a) (workspace b) = ground arith
envelope_beq_iff (installation a) (installation b) = ground (arith, binding_beq_iff a b)

instance abbrev pub envelope_eq : Eq Envelope
envelope_eq = record { equal = envelope_beq; equal_iff = envelope_beq_iff }
