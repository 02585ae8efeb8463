-- ===== src/Registration/Tests.antt =====
-- Runs of the model of the registration capabilities of runtime/plugin/mgr.py at concrete inputs.
use langbot_plugin_sdk.Prelude.{◌<◌, ◌≡◌, refl, none, List, [], ◌∷◌, raise, string_eq, arith}
use langbot_plugin_sdk.Prelude.Dict
use langbot_plugin_sdk.Fence.{new}
use langbot_plugin_sdk.Registration.{
  Library, Launch, Registration, invalid_capability, other_identity, pending_limit, expired_keys,
  remove_keys, prune_expired, registration_of, take_registration, issue_registration_capability,
  find_pending_registration_key, consume_registration_capability,
}
use langbot_plugin_sdk.Registration.Events.{Event, issuing, checking, step, run}
use langbot_plugin_sdk.Registration.Once.{presented_once}
use langbot_plugin_sdk.Registration.Provenance.{IsIssued, accepted-IsIssued}

program : Unit {0}
unfolding pending_limit expired_keys remove_keys prune_expired take_registration
    issue_registration_capability find_pending_registration_key consume_registration_capability step
    run Dict.get Dict.set Dict.remove
program = tt

abbrev library : Library
library = record { strip = λ s. s; abspath = λ s. s }

abbrev launch : Launch
launch = record {
  plugin_author = "langbot";
  plugin_name = "echo";
  plugin_path = "/plugins/echo";
  binding = none;
}

abbrev issued : List Event
issued = issuing new 1000 "t1" launch ∷ issuing new 2000 "t2" launch ∷ []

abbrev registration : Registration
registration = registration_of library 1000 launch

accepted-IsIssued_example :
    IsIssued library "t1" registration issued
    × (5000 < registration.expires_at)
    × (registration.plugin_author ≡ "langbot")
    × (registration.plugin_name ≡ "echo")
unfolding program
accepted-IsIssued_example =
    accepted-IsIssued library issued 5000 "t1" "langbot" "echo" registration refl

-- The capability is presented by another plugin, and then by the right one.
abbrev between : List Event
between = issuing new 6000 "t3" launch ∷ checking 6000 "t1" ∷ []

presented_by_another :
    (consume_registration_capability library 5000 "t1" "langbot" "other" (run library [] issued)).1
    ≡ raise other_identity
unfolding program
presented_by_another = refl

presented_once_example :
    (consume_registration_capability library 7000 "t1" "langbot" "echo" (
      run library
        (consume_registration_capability library 5000 "t1" "langbot" "other"
          (run library [] issued)).0
        between)).1
    ≡ raise invalid_capability
unfolding program
presented_once_example =
    presented_once library (run library [] issued) 5000 7000 "t1" "langbot" "other" "langbot" "echo"
      between (λ e. ground (arith, (string_eq.equal_iff "t3" "t1").1 e), (tt, tt))
