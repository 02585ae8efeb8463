-- ===== src/Installations/Events.antt =====
-- Sequences of operations on the installations.
use langbot_plugin_sdk.Prelude.{ℕ, String, Bool, Option, List, [], ◌∷◌, Result, ok, raise}
use langbot_plugin_sdk.Context.{InstallationBinding}
use langbot_plugin_sdk.Installations.{
  Manager, Volume, InstallationError, Answer, installation_supervisor_done,
}
use langbot_plugin_sdk.Installations.Apply.{apply_plugin_installation, remove_plugin_installation}
use langbot_plugin_sdk.Installations.Reconcile.{DesiredState, reconcile_plugin_installations}

-- An operation with what the volume answers during it, or the end of a supervisor task.
pub data Event : Type 0 where
  applying : Volume → Option String → InstallationBinding → Bool → Event
  removing : InstallationBinding → Event
  reconciling : Volume → List DesiredState → Event
  ended : ℕ → Event

-- The manager after an operation, which is unchanged when it raises.
abbrev pub manager_of : Manager → Result InstallationError (Manager × Answer) → Manager
manager_of m (ok (m', a)) = m'
manager_of m (raise e) = m

unfoldable pub step : Manager → Event → Manager
step m (applying v bytes b enabled) = manager_of m (apply_plugin_installation v bytes b enabled m)
step m (removing b) = manager_of m (remove_plugin_installation b m)
step m (reconciling v ds) = (reconcile_plugin_installations v ds m).0
step m (ended task) = installation_supervisor_done m task

unfoldable pub run : Manager → List Event → Manager
run m [] = m
run m (e ∷ es) = run (step m e) es
