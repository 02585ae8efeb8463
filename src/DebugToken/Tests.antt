-- ===== src/DebugToken/Tests.antt =====
-- Runs of the model of the debug token store at concrete inputs.
use langbot_plugin_sdk.Prelude.{
  ◌≡◌, refl, Option, none, some, List, [], ◌∷◌, String, arith, if◌then◌else◌, ◌==◌, string_eq,
}
use langbot_plugin_sdk.Prelude.Dict
use langbot_plugin_sdk.DebugToken.{
  Binding, Store, current_token, issue, find_token, binding_for_token,
}
use langbot_plugin_sdk.DebugToken.Resolve.{
  Call, issuing, finding, Scope, scope_of, after, run, empty, binding_for_token-scope,
  issue-binding_for_token,
}

program : Unit {0}
unfolding current_token issue find_token binding_for_token after run Dict.get Dict.set Dict.remove
program = tt

abbrev strip : String → String
strip s = s

abbrev first : Binding
first = record { workspace_uuid = "w"; instance_uuid = some "i"; placement_generation = some 1 }

abbrev second : Binding
second = record { workspace_uuid = "w"; instance_uuid = some "i"; placement_generation = some 2 }

-- The random tokens of the two calls, and what they stand for.
abbrev grants : String → Option Scope
grants t =
    if t == "r1"
    then some (scope_of strip first)
    else if t == "r2"
    then some (scope_of strip second)
    else none

abbrev calls : List Call
calls = issuing 0 "r1" first ∷ finding 5 "r1" ∷ []

-- The token stays the same in its window, and a new generation of the Workspace gets a new one.
keeps_token :
    current_token
      (run strip (empty 7200) calls)
      10
      "r2"
      first
      (Dict.get (run strip (empty 7200) calls).credentials "w")
    ≡ ("r1", 7200)
unfolding program
keeps_token = refl

rotates_token :
    current_token
      (run strip (empty 7200) calls)
      10
      "r2"
      second
      (Dict.get (run strip (empty 7200) calls).credentials "w")
    ≡ ("r2", 7210)
unfolding program
rotates_token = refl

binding_for_token-scope_example : grants "r1" ≡ some (scope_of strip first)
unfolding program
binding_for_token-scope_example =
    binding_for_token-scope strip grants 7200 calls 6 "r1" first (refl, (tt, tt)) refl

abbrev renewed : Store
renewed = record {
  ttl_seconds = 7200;
  credentials = ("w", record { token = "r2"; expires = 7210; binding = second }) ∷ [];
}

issue-binding_for_token_example :
    (found : Binding) × ((binding_for_token renewed 7209 "r2").0 ≡ some found)
    × (scope_of strip found ≡ scope_of strip second)
unfolding program
issue-binding_for_token_example =
    issue-binding_for_token strip grants 7200 calls 10 "r2" second "r2" 7210 renewed 7209
      (refl, (tt, tt)) refl refl (λ h. cc) (omega arith)
