-- ===== src/Executor/Tests.antt =====
-- Runs of the model of bounded_executor.py at concrete inputs.
use langbot_plugin_sdk.Prelude.{
  String, ◌≡◌, refl, Bool, true, false, Option, none, some, [], ◌∷◌, arith, ok, raise, string_eq,
}
use langbot_plugin_sdk.Prelude.Pick.{here}
use langbot_plugin_sdk.Prelude.Dict
use langbot_plugin_sdk.Prelude.Int.{ℤ, pos, negsuc}
use langbot_plugin_sdk.Executor.{
  Executor, init, acquire, release, reject_globally, reject_scope, scope_is_full, admit, withdraw,
  start_run, end_run, complete,
}
use langbot_plugin_sdk.Executor.Limits.{
  Limits, out_of_range, not_an_integer, over_fair_share, validated_limits,
}
use langbot_plugin_sdk.Executor.System.{task, Step, Reach, initial, next, returning, queued}
use langbot_plugin_sdk.Executor.Invariant.{fresh, Inv, Reach-Inv}
use langbot_plugin_sdk.Executor.Submit.{submit, capacity_error, SameWork, submit_refused}

program : Unit {0}
unfolding init acquire release reject_globally reject_scope scope_is_full admit withdraw start_run
    end_run complete Dict.get Dict.set Dict.remove
program = tt

-- One submission of scope "a" from `submit` to the end of its work.
abbrev pool : Executor
unfolding init
pool = init 4 2 2

abbrev s_a : Option String
s_a = some "a"

abbrev entered : Executor
entered = record pool { capacity = 5 }

abbrev working :
    Reach (fresh 4 2 2) (record { executor = admit entered s_a; tasks = task s_a queued ∷ [] })
unfolding program
working =
    next
      (next (next initial (Step.enter pool entered [] s_a refl))
        (Step.let_in entered _ [] s_a (here []) refl))
      (Step.queue (admit entered s_a) _ [] s_a (here []))

abbrev worked : Executor
worked = complete (end_run (start_run (admit entered s_a))) s_a

abbrev ending : Reach (fresh 4 2 2) (record { executor = worked; tasks = task s_a returning ∷ [] })
unfolding program
ending =
    next (next (next working (Step.start _ _ [] s_a (here []))) (Step.stop _ _ [] s_a (here [])))
      (Step.done _ _ [] s_a (here []))

abbrev idle : Reach (fresh 4 2 2) (record { executor = record worked { capacity = 6 }; tasks = [] })
unfolding program
idle = next ending (Step.give_back worked _ _ [] s_a (here []) refl)

Reach-Inv_example : Inv (record { executor = admit entered s_a; tasks = task s_a queued ∷ [] })
Reach-Inv_example = Reach-Inv 4 2 2 working

-- Settings that are texts or truth values, with `int` on the texts "4" and "2" alone.
data Setting : Type 0 where
  truth : Bool → Setting
  text : String → Setting
  number : ℤ → Setting

abbrev is_bool : Setting → Bool
is_bool (truth b) = true
is_bool (text s) = false
is_bool (number n) = false

abbrev int_of : Setting → Option ℤ
int_of (truth b) = none
int_of (text s) = Dict.get (("4", pos 4) ∷ ("2", pos 2) ∷ []) s
int_of (number n) = some n

abbrev four_two : Limits
four_two = record { workers = 4; pending = 2; scope_limit = 2 }

limits : validated_limits is_bool int_of (text "4") (text "2") none ≡ ok four_two
unfolding validated_limits program
limits = refl

refused_limits :
    (validated_limits is_bool int_of (truth true) (text "2") none ≡ raise not_an_integer)
    × (validated_limits is_bool int_of (text "4") (number (negsuc 0)) none ≡ raise out_of_range)
    × (validated_limits is_bool int_of (text "4") (text "2") (some (text "4"))
        ≡ raise over_fair_share)
unfolding validated_limits program
refused_limits = (refl, refl, refl)

-- Two tasks of scope "a" are its share of four workers.
abbrev busy : Executor
busy = (submit (submit pool s_a true).0 s_a true).0

third_refused : (submit busy s_a true).1 ≡ capacity_error s_a
unfolding submit program
third_refused = refl

submit_refused_example : SameWork busy (submit busy s_a true).0
unfolding submit program
submit_refused_example = submit_refused busy s_a true (omega arith) (λ e. cc)
