-- ===== src/Handler/Bound.antt =====
-- The binding of a connection of handler.py over its life.
use langbot_plugin_sdk.Prelude.{
  ◌≡◌, refl, ap, ◌∙◌, inl, inr, true, Option, none, some, List, [], ◌∷◌, ok, raise, Result-cases,
  bind_inverse, String, string_eq, option_eq, option_beq_iff, arith,
}
use langbot_plugin_sdk.Context.{
  ActionContext, Envelope, as_action_context, same_workspace, envelope_eq, envelope_beq_iff,
}
use langbot_plugin_sdk.Handler.{
  installation_uuid, is_installation, check_context, bind_action_context,
  validate_inbound_action_context, resolve_outbound_action_context,
}

-- `later` is within the authority of `earlier`: the same Workspace and generation, the same
-- installation if there was one, and the very same binding if it was complete.
pub record Within (later earlier : Envelope) : Type 0 where
  pub instance_uuid :
      (as_action_context later).instance_uuid ≡ (as_action_context earlier).instance_uuid
  pub workspace_uuid :
      (as_action_context later).workspace_uuid ≡ (as_action_context earlier).workspace_uuid
  pub generation :
      (as_action_context later).placement_generation
      ≡ (as_action_context earlier).placement_generation
  pub same_installation :
      (i : String) → installation_uuid earlier ≡ some i → installation_uuid later ≡ some i
  pub complete : is_installation earlier ≡ true → later ≡ earlier

Within-refl : (a : Envelope) → Within a a
Within-refl a = record {
  instance_uuid = refl;
  workspace_uuid = refl;
  generation = refl;
  same_installation = λ i h. h;
  complete = λ h. refl;
}

Within-trans : (a b c : Envelope) → Within a b → Within b c → Within a c
Within-trans a b c v w = record {
  instance_uuid = v.instance_uuid ∙ w.instance_uuid;
  workspace_uuid = v.workspace_uuid ∙ w.workspace_uuid;
  generation = v.generation ∙ w.generation;
  same_installation = λ i h. v.same_installation i (w.same_installation i h);
  complete = λ h. let e = w.complete h in v.complete (ap is_installation e ∙ h) ∙ e;
}

-- What `same_workspace` compares.
in_workspace :
    (a b : ActionContext)
    → same_workspace a b ≡ true
    → (b.instance_uuid ≡ a.instance_uuid)
      × (b.workspace_uuid ≡ a.workspace_uuid)
      × (b.placement_generation ≡ a.placement_generation)
unfolding same_workspace
in_workspace a b h = ground (
  arith,
  string_eq.equal_iff a.instance_uuid b.instance_uuid,
  string_eq.equal_iff a.workspace_uuid b.workspace_uuid,
)

bind-Within :
    (current context e : Envelope)
    → bind_action_context (some current) context ≡ ok e
    → Within e current
unfolding bind_action_context
bind-Within current context e h = record {
  instance_uuid =
      ground (arith, h, in_workspace (as_action_context current) (as_action_context context));
  workspace_uuid =
      ground (arith, h, in_workspace (as_action_context current) (as_action_context context));
  generation =
      ground (arith, h, in_workspace (as_action_context current) (as_action_context context));
  same_installation = λ i k.
      ground (arith, h, k, option_beq_iff (installation_uuid current) (installation_uuid context));
  complete = λ k. ground (arith, h, k, envelope_beq_iff context current);
}

check_context-Within :
    (bound context : Envelope) → check_context bound context ≡ ok tt → Within context bound
check_context-Within bound context h = record {
  instance_uuid =
      ground (arith, h, in_workspace (as_action_context bound) (as_action_context context));
  workspace_uuid =
      ground (arith, h, in_workspace (as_action_context bound) (as_action_context context));
  generation =
      ground (arith, h, in_workspace (as_action_context bound) (as_action_context context));
  same_installation = λ i k.
      ground (arith, h, k, option_beq_iff (installation_uuid context) (installation_uuid bound));
  complete = λ k. ground (arith, h, k, envelope_beq_iff context bound);
}

-- A bound connection after further calls of `bind_action_context`; a call that raises leaves it.
unfoldable pub rebinds : Envelope → List Envelope → Envelope
rebinds bound [] = bound
rebinds bound (context ∷ contexts) = elim (bind_action_context (some bound) context) [
  | ok e ↦ rebinds e contexts
  | raise x ↦ rebinds bound contexts
]

rebinds-Within :
    (bound : Envelope) (contexts : List Envelope) → Within (rebinds bound contexts) bound
unfolding rebinds
rebinds-Within bound [] = Within-refl bound
rebinds-Within bound (context ∷ contexts) =
    elim (Result-cases (bind_action_context (some bound) context)) [
      | inl (e, h) ↦
          rw (rebinds, h)
            (Within-trans (rebinds e contexts) e bound (rebinds-Within e contexts)
              (bind-Within bound context e h))
      | inr (x, h) ↦ rw (rebinds, h) (rebinds-Within bound contexts)
    ]

inbound-Within :
    (b : Envelope) (supplied result : Option Envelope)
    → validate_inbound_action_context (some b) supplied ≡ ok result
    → (result ≡ some b) × ((c : Envelope) → supplied ≡ some c → Within c b)
unfolding validate_inbound_action_context
inbound-Within b none result h = (ground (arith, h), λ c e. ground (arith, e))
inbound-Within b (some c) result h =
    let (checked, e, returned) = bind_inverse (check_context b c) _ h in
    (ground (arith, returned), λ c' k. check_context-Within b c' (ground (arith, e, k)))

outbound-Within :
    (b : Envelope) (supplied result : Option Envelope)
    → resolve_outbound_action_context (some b) supplied ≡ ok result
    → (e : Envelope) × (result ≡ some e) × Within e b
unfolding resolve_outbound_action_context
outbound-Within b none result h = (b, ground (arith, h), Within-refl b)
outbound-Within b (some c) result h =
    let (checked, e, returned) = bind_inverse (check_context b c) _ h in
    (c, ground (arith, returned), check_context-Within b c e)

-- Once a connection is bound, then whatever else it is asked to bind, every request that it accepts
-- runs in a context within the first binding, also if the peer sent another one or none, and so does
-- every request that it sends: the same Workspace and generation, the same installation if the
-- binding named one, and exactly the binding if it was complete. What the peer sent with an accepted
-- request is within the binding too.
pub isolated :
    (bound : Envelope) (attempts : List Envelope) (supplied result : Option Envelope)
    → (validate_inbound_action_context (some (rebinds bound attempts)) supplied ≡ ok result
        → (e : Envelope) × (result ≡ some e)
          × Within e bound
          × ((c : Envelope) → supplied ≡ some c → Within c bound))
      × (resolve_outbound_action_context (some (rebinds bound attempts)) supplied ≡ ok result
          → (e : Envelope) × (result ≡ some e) × Within e bound)
isolated bound attempts supplied result =
    let b = rebinds bound attempts in
    let v = rebinds-Within bound attempts in
    (
      λ h.
          let (e, sent) = inbound-Within b supplied result h in
          (b, e, v, λ c k. Within-trans c b bound (sent c k) v),
      λ h.
          let (e, returned, w) = outbound-Within b supplied result h in
          (e, returned, Within-trans e b bound w v),
    )
