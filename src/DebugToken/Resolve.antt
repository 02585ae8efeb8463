-- ===== src/DebugToken/Resolve.antt =====
-- Which binding a token of the store of security.py stands for.
use langbot_plugin_sdk.Prelude.{
  ℕ, ◌<◌, ◌≡◌, refl, sym, ◌∙◌, ◌≢◌, inl, inr, Option, some, List, [], ◌∷◌, leb, ◌==◌, nat_eq,
  string_eq, option_eq, option_beq_iff, String, ok, raise, arith, All, Bool-cases, Option-cases,
  Result-cases,
}
use langbot_plugin_sdk.Prelude.Dict
use langbot_plugin_sdk.Prelude.Dict.{Dict}
use langbot_plugin_sdk.DebugToken.{
  Binding, Credential, Store, current_token, issue, find_token, binding_for_token,
}

-- The calls of the store, in their order; `time` is what the clock shows.
pub data Call : Type 0 where
  issuing : (time : ℕ) (random : String) (binding : Binding) → Call
  finding : (time : ℕ) (supplied : String) → Call

-- The scope that a token stands for.
pub record Scope : Type 0 where
  pub workspace : String
  pub instance_uuid : Option String
  pub placement_generation : Option ℕ

abbrev pub empty : ℕ → Store
empty ttl_seconds = record { ttl_seconds = ttl_seconds; credentials = [] }

module _ (strip : String → String) where
  abbrev pub scope_of : Binding → Scope
  scope_of b = record {
    workspace = strip b.workspace_uuid;
    instance_uuid = b.instance_uuid;
    placement_generation = b.placement_generation;
  }

  unfoldable pub after : Store → Call → Store
  after s (issuing time random binding) = elim (issue strip s time random binding) [
    | ok (token, expires, s') ↦ s'
    | raise e ↦ s
  ]
  after s (finding time supplied) = (binding_for_token s time supplied).1

  unfoldable pub run : Store → List Call → Store
  unfolding after
  run s [] = s
  run s (c ∷ cs) = run (after s c) cs

  -- `grants` gives each random token the scope of the call that drew it, so different calls draw
  -- different tokens.
  abbrev pub IsGranted : (String → Option Scope) → Call → Type 0
  IsGranted grants (issuing time random binding) = grants random ≡ some (scope_of binding)
  IsGranted grants (finding time supplied) = Unit

  abbrev Holds : (String → Option Scope) → Dict String Credential → Type 0
  Holds grants d =
      All
        (λ kc.
          (grants kc.1.token ≡ some (scope_of kc.1.binding))
          × (strip kc.1.binding.workspace_uuid ≡ kc.0))
        d

  Holds-remove :
      (grants : String → Option Scope) (d : Dict String Credential) (k : String)
      → Holds grants d
      → Holds grants (Dict.remove d k)
  unfolding Dict.remove
  Holds-remove grants [] k h = tt
  Holds-remove grants ((j, c) ∷ d) k h = elim (Bool-cases (j == k)) [
    | inl same ↦ rw same (Holds-remove grants d k h.1)
    | inr other ↦ rw other (h.0, Holds-remove grants d k h.1)
  ]

  Holds-set :
      (grants : String → Option Scope) (d : Dict String Credential) (k : String) (c : Credential)
      → grants c.token ≡ some (scope_of c.binding)
      → strip c.binding.workspace_uuid ≡ k
      → Holds grants d
      → Holds grants (Dict.set d k c)
  unfolding Dict.set
  Holds-set grants [] k c granted key h = ((granted, key), tt)
  Holds-set grants ((j, x) ∷ d) k c granted key h = elim (Bool-cases (j == k)) [
    | inl same ↦ rw same ((granted, key ∙ sym ((string_eq.equal_iff j k).0 same)), h.1)
    | inr other ↦ rw other (h.0, Holds-set grants d k c granted key h.1)
  ]

  get-Holds :
      (grants : String → Option Scope) (d : Dict String Credential) (k : String) (c : Credential)
      → Dict.get d k ≡ some c
      → Holds grants d
      → (grants c.token ≡ some (scope_of c.binding)) × (strip c.binding.workspace_uuid ≡ k)
  unfolding Dict.get
  get-Holds grants [] k c e h = ground arith
  get-Holds grants ((j, x) ∷ d) k c e h =
      ground (arith, string_eq.equal_iff j k, e, h.0, get-Holds grants d k c)

  current_token-granted :
      (grants : String → Option Scope) (s : Store) (now : ℕ) (random : String) (b : Binding)
      → grants random ≡ some (scope_of b)
      → Holds grants s.credentials
      → grants (current_token s now random b (Dict.get s.credentials (strip b.workspace_uuid))).0
        ≡ some (scope_of b)
  unfolding current_token
  current_token-granted grants s now random b drawn h =
      elim (Option-cases (Dict.get s.credentials (strip b.workspace_uuid))) [
        | inl absent ↦ rw absent drawn
        | inr (c, present) ↦
            let (granted, key) =
              get-Holds grants s.credentials (strip b.workspace_uuid) c present h in
            rw present (
              ground (
                arith,
                drawn,
                granted,
                key,
                option_beq_iff c.binding.instance_uuid b.instance_uuid,
                option_beq_iff c.binding.placement_generation b.placement_generation,
              ))
      ]

  find_token-Holds :
      (grants : String → Option Scope) (now : ℕ) (t : String) (items d : Dict String Credential)
      → Holds grants items
      → Holds grants d
      → Holds grants (find_token now t items d).1
        × ((b : Binding) → (find_token now t items d).0 ≡ some b → grants t ≡ some (scope_of b))
  unfolding find_token
  find_token-Holds grants now t [] d hi hd = (hd, λ b e. ground arith)
  find_token-Holds grants now t ((k, c) ∷ items) d hi hd = elim (Bool-cases (leb c.expires now)) [
    | inl expired ↦
        rw expired
          (find_token-Holds grants now t items (Dict.remove d k) hi.1 (Holds-remove grants d k hd))
    | inr valid ↦ elim (Bool-cases (c.token == t)) [
      | inl same ↦
          rw (valid, same)
            (hd, λ b e. ground (arith, e, hi.0.0, string_eq.equal_iff c.token t, same))
      | inr other ↦ rw (valid, other) (find_token-Holds grants now t items d hi.1 hd)
    ]
  ]

  issue-Holds :
      (grants : String → Option Scope) (s : Store) (now : ℕ) (random : String) (b : Binding)
      (t : String) (expires : ℕ) (s' : Store)
      → grants random ≡ some (scope_of b)
      → Holds grants s.credentials
      → issue strip s now random b ≡ ok (t, expires, s')
      → (grants t ≡ some (scope_of b))
        × Holds grants s'.credentials
        × (Dict.get s'.credentials (strip b.workspace_uuid)
            ≡ some (record { token = t; expires = expires; binding = b }))
  unfolding issue
  issue-Holds grants s now random b t expires s' drawn h e =
      let granted = current_token-granted grants s now random b drawn h in
      let issued = current_token s now random b (Dict.get s.credentials (strip b.workspace_uuid)) in
      let c : Credential = record { token = issued.0; expires = issued.1; binding = b } in
      ground (
        arith,
        e,
        granted,
        Holds-set grants s.credentials (strip b.workspace_uuid) c granted refl h,
        Dict.get-set_self s.credentials (strip b.workspace_uuid) c,
      )

  after-Holds :
      (grants : String → Option Scope) (s : Store) (c : Call)
      → Holds grants s.credentials
      → IsGranted grants c
      → Holds grants (after s c).credentials
  unfolding after binding_for_token
  after-Holds grants s (issuing now random b) h drawn =
      elim (Result-cases (issue strip s now random b)) [
        | inl ((t, expires, s'), e) ↦
            rw (after, e) (issue-Holds grants s now random b t expires s' drawn h e).1
        | inr (x, e) ↦ rw (after, e) h
      ]
  after-Holds grants s (finding now t) h v = elim (Bool-cases (t == "")) [
    | inl missing ↦ rw (after, binding_for_token, missing) h
    | inr some_token ↦
        rw (after, binding_for_token, some_token)
          (find_token-Holds grants now t s.credentials s.credentials h h).0
  ]

  run-Holds :
      (grants : String → Option Scope) (s : Store) (cs : List Call)
      → Holds grants s.credentials
      → All (IsGranted grants) cs
      → Holds grants (run s cs).credentials
  unfolding run
  run-Holds grants s [] h v = h
  run-Holds grants s (c ∷ cs) h v =
      run-Holds grants (after s c) cs (after-Holds grants s c h v.0) v.1

  find_token_present :
      (now : ℕ) (t : String) (items d : Dict String Credential) (k : String) (c : Credential)
      → Dict.get items k ≡ some c
      → c.token ≡ t
      → now < c.expires
      → (b : Binding) × ((find_token now t items d).0 ≡ some b)
  unfolding find_token Dict.get
  find_token_present now t [] d k c e same valid = ground arith
  find_token_present now t ((j, x) ∷ items) d k c e same valid =
      elim (Bool-cases (leb x.expires now)) [
        | inl expired ↦ rw expired (
            find_token_present now t items (Dict.remove d j) k c (ground (arith, e, expired, valid))
              same valid)
        | inr valid' ↦ elim (Bool-cases (x.token == t)) [
          | inl found ↦ rw (valid', found) (x.binding, refl)
          | inr other ↦
              rw (valid', other)
                (find_token_present now t items d k c
                  (ground (arith, e, other, same, string_eq.equal_iff x.token t)) same valid)
        ]
      ]

  -- Provided that different calls draw different random tokens, a token never gives a binding of a
  -- Workspace, instance or generation other than the one that it was issued for, whatever was issued
  -- and looked up before.
  pub binding_for_token-scope :
      (grants : String → Option Scope) (ttl : ℕ) (cs : List Call) (now : ℕ) (t : String)
      (b : Binding)
      → All (IsGranted grants) cs
      → (binding_for_token (run (empty ttl) cs) now t).0 ≡ some b
      → grants t ≡ some (scope_of b)
  unfolding binding_for_token
  binding_for_token-scope grants ttl cs now t b v e =
      let s = run (empty ttl) cs in
      let h = run-Holds grants (empty ttl) cs tt v in
      elim (Bool-cases (t == "")) [
        | inl none_supplied ↦ ground (arith, none_supplied, e)
        | inr some_token ↦
            (find_token-Holds grants now t s.credentials s.credentials h h).1 b (rw some_token at e)
      ]

  -- Provided that the random tokens that are drawn for different scopes differ: a token that is not
  -- empty and is issued after any calls, and that is looked up with no call in between and before it
  -- expires, gives a binding of that scope.
  pub issue-binding_for_token :
      (grants : String → Option Scope) (ttl : ℕ) (cs : List Call) (now : ℕ) (random : String)
      (b : Binding) (t : String) (expires : ℕ) (s : Store) (later : ℕ)
      → All (IsGranted grants) cs
      → grants random ≡ some (scope_of b)
      → issue strip (run (empty ttl) cs) now random b ≡ ok (t, expires, s)
      → t ≢ ""
      → later < expires
      → (found : Binding) × ((binding_for_token s later t).0 ≡ some found)
        × (scope_of found ≡ scope_of b)
  unfolding binding_for_token
  issue-binding_for_token grants ttl cs now random b t expires s later v drawn e named valid =
      let h = run-Holds grants (empty ttl) cs tt v in
      let (granted, held, present) =
        issue-Holds grants (run (empty ttl) cs) now random b t expires s drawn h e in
      let c : Credential = record { token = t; expires = expires; binding = b } in
      let (found, f) =
        find_token_present later t s.credentials s.credentials (strip b.workspace_uuid) c present
          refl valid in
      let same =
        (find_token-Holds grants later t s.credentials s.credentials held held).1 found f in
      elim (Bool-cases (t == "")) [
        | inl none_supplied ↦ elim (named ((string_eq.equal_iff t "").0 none_supplied)) [ ]
        | inr some_token ↦ rw some_token (found, f, some_inj (sym same ∙ granted))
      ]
    where
      some_inj : {x y : Scope} → some x ≡ some y → x ≡ y
      some_inj h = cc
