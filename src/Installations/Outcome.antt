-- ===== src/Installations/Outcome.antt =====
-- The three ways in which an apply ends.
use langbot_plugin_sdk.Prelude.{
  String, ◌≡◌, refl, inl, inr, Bool, true, false, Option, arith, ok, raise, Bool-cases,
  Result-cases,
}
use langbot_plugin_sdk.Context.{InstallationBinding}
use langbot_plugin_sdk.Fence.{
  Runtime, activate_installation_binding, validate_installation_candidate,
}
use langbot_plugin_sdk.Installations.{
  Artifact, Manager, Volume, InstallationError, refused, worker_capacity_would_be_exceeded,
}
use langbot_plugin_sdk.Installations.Apply.{
  supersede, install, apply_plugin_installation, fetch, capacity_answer,
}

-- An apply raises and changes nothing, or reports that there is no room and changes nothing, or
-- makes the binding the active one and installs it.
pub data Outcome (v : Volume) (bytes : Option String) (b : InstallationBinding) (enabled : Bool)
    (m : Manager) : Type 0 where
  rejected :
      (e : InstallationError)
      → apply_plugin_installation v bytes b enabled m ≡ raise e
      → Outcome v bytes b enabled m
  crowded :
      apply_plugin_installation v bytes b enabled m ≡ ok (m, capacity_answer b)
      → enabled ≡ true
      → Outcome v bytes b enabled m
  applied :
      (out : Runtime × Option InstallationBinding) (artifact : Option Artifact)
      → activate_installation_binding m.runtime b ≡ ok out
      → fetch v bytes b ≡ ok artifact
      → (enabled ≡ true → worker_capacity_would_be_exceeded m b ≡ ok false)
      → apply_plugin_installation v bytes b enabled m
        ≡ ok (install (supersede m b out) v b artifact enabled)
      → Outcome v bytes b enabled m

pub Outcome-apply :
    (v : Volume) (bytes : Option String) (b : InstallationBinding) (enabled : Bool) (m : Manager)
    → Outcome v bytes b enabled m
unfolding apply_plugin_installation
Outcome-apply v bytes b enabled m =
    elim (Result-cases (validate_installation_candidate m.runtime b)) [
      | inr (e, h) ↦ rejected (refused e) (rw h refl)
      | inl (policy, h) ↦ elim (Result-cases (fetch v bytes b)) [
        | inr (e, k) ↦ rejected e (rw (h, k) refl)
        | inl (artifact, k) ↦ elim (Bool-cases enabled) [
          | inl on ↦ elim (Result-cases (worker_capacity_would_be_exceeded m b)) [
            | inr (e, w) ↦ rejected e (rw (h, k, on, w) refl)
            | inl (exceeded, w) ↦ elim (Bool-cases exceeded) [
              | inl full ↦ crowded (rw (h, k, on, w, full) refl) on
              | inr free ↦ elim (Result-cases (activate_installation_binding m.runtime b)) [
                | inr (e, c) ↦ rejected (refused e) (rw (h, k, on, w, free, c) refl)
                | inl (out, c) ↦
                    applied out artifact c k (λ t. ground (arith, w, free))
                      (rw (h, k, on, w, free, c) refl)
              ]
            ]
          ]
          | inr off ↦ elim (Result-cases (activate_installation_binding m.runtime b)) [
            | inr (e, c) ↦ rejected (refused e) (rw (h, k, off, c) refl)
            | inl (out, c) ↦
                applied out artifact c k (λ t. ground (arith, t, off)) (rw (h, k, off, c) refl)
          ]
        ]
      ]
    ]
