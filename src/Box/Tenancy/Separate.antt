-- ===== src/Box/Tenancy/Separate.antt =====
-- What box/tenancy.py promises of the names of sessions.
use mathlib.Core.List.{append_assoc}
use langbot_plugin_sdk.Prelude.{
  ℕ, ◌≡◌, refl, sym, ap, ◌∙◌, String, Bool, true, ◌&&◌, [], ◌∷◌, ◌++◌, length, take, drop,
  length-take, leb, nat_eq, nat_beq_iff, arith,
}
use langbot_plugin_sdk.Context.{ActionContext}
use langbot_plugin_sdk.Box.Tenancy.{
  Text, Library, is_id_char, starts_with, box_namespace, box_runtime_namespace,
  session_namespace_prefix, session_belongs_to_placement,
}

abbrev pub every : (ℕ → Bool) → Text → Bool
every p [] = true
every p (c ∷ t) = p c && every p t

abbrev pub is_digit : ℕ → Bool
is_digit c = leb b'0' c && leb c b'9'

-- What is used of SHA-256, of decimal numbers and of `str.strip`.
pub record IsLibrary (l : Library) : Type 0 where
  pub sha256_length : (i w : String) → length (l.sha256 i w) ≡ 64
  pub sha256_chars : (i w : String) → every is_id_char (l.sha256 i w) ≡ true
  pub decimal_digits : (n : ℕ) → every is_digit (l.decimal n) ≡ true
  pub decimal_injective : (m n : ℕ) → l.decimal m ≡ l.decimal n → m ≡ n
  pub strip_keeps : (t : Text) → every is_id_char t ≡ true → l.strip t ≡ t

starts_with-split : (t p : Text) → starts_with t p ≡ true → p ++ drop (length p) t ≡ t
starts_with-split t [] h = refl
starts_with-split [] (c ∷ p) h = cc
starts_with-split (d ∷ t) (c ∷ p) h = ground (arith, h, nat_beq_iff d c, starts_with-split t p)

pub starts_with-append : (p r : Text) → starts_with (p ++ r) p ≡ true
starts_with-append [] r = refl
starts_with-append (c ∷ p) r = ground (arith, starts_with-append p r)

pub drop-append : (p r : Text) → drop (length p) (p ++ r) ≡ r
drop-append [] r = refl
drop-append (c ∷ p) r = drop-append p r

cons_injective : (c d : ℕ) (s t : Text) → c ∷ s ≡ d ∷ t → (c ≡ d) × (s ≡ t)
cons_injective c d s t h = (cc, cc)

same_length : (d e s t : Text) → length d ≡ length e → d ++ s ≡ e ++ t → (d ≡ e) × (s ≡ t)
same_length [] [] s t n h = (refl, h)
same_length [] (x ∷ e) s t n h = absurd (omega (arith, n))
same_length (x ∷ d) [] s t n h = absurd (omega (arith, n))
same_length (x ∷ d) (y ∷ e) s t n h =
    let (first, more) = cons_injective x y (d ++ s) (e ++ t) h in
    let (rest, after) = same_length d e s t (omega (arith, n)) more in (cc (first, rest), after)

-- Digits that end at a dash are read in one way.
digits_unique :
    (d e s t : Text)
    → every is_digit d ≡ true
    → every is_digit e ≡ true
    → d ++ b'-' ∷ s ≡ e ++ b'-' ∷ t
    → d ≡ e
digits_unique [] [] s t hd he h = refl
digits_unique [] (y ∷ e) s t hd he h =
    ground (arith, he, (cons_injective b'-' y s (e ++ b'-' ∷ t) h).0)
digits_unique (x ∷ d) [] s t hd he h =
    ground (arith, hd, (cons_injective x b'-' (d ++ b'-' ∷ s) t h).0)
digits_unique (x ∷ d) (y ∷ e) s t hd he h =
    let (first, more) = cons_injective x y (d ++ b'-' ∷ s) (e ++ b'-' ∷ t) h in
    let rest = digits_unique d e s t (ground (arith, hd)) (ground (arith, he)) more in
    cc (first, rest)

module _ (l : Library) (v : IsLibrary l) where
  abbrev digest : ActionContext → Text
  digest c = take 24 (l.sha256 c.instance_uuid c.workspace_uuid)

  abbrev ending : ActionContext → Text → Text
  ending c r = b'-' ∷ b'g' ∷ (l.decimal c.placement_generation ++ b'-' ∷ r)

  prefix-parts :
      (c : ActionContext) (r : Text)
      → session_namespace_prefix l c ++ r ≡ b'w' ∷ b's' ∷ b'-' ∷ (digest c ++ ending c r)
  unfolding session_namespace_prefix box_runtime_namespace box_namespace
  prefix-parts c r =
      let start = b'-' ∷ b'g' ∷ l.decimal c.placement_generation in
      ap (λ t. b'w' ∷ b's' ∷ b'-' ∷ t)
        (append_assoc (digest c ++ start) (b'-' ∷ []) r ∙ append_assoc (digest c) start (b'-' ∷ r))

  digest-length : (c : ActionContext) → length (digest c) ≡ 24
  digest-length c = omega (
    arith,
    length-take 24 (l.sha256 c.instance_uuid c.workspace_uuid),
    v.sha256_length c.instance_uuid c.workspace_uuid,
  )

  -- A session belongs to one placement: the Workspaces of two contexts that a name belongs to have
  -- the same digest, and their generations are equal.
  pub belongs_once :
      (c d : ActionContext) (session_id : Text)
      → session_belongs_to_placement l c session_id ≡ true
      → session_belongs_to_placement l d session_id ≡ true
      → (box_namespace l c ≡ box_namespace l d) × (c.placement_generation ≡ d.placement_generation)
  unfolding session_belongs_to_placement box_namespace
  belongs_once c d session_id hc hd =
      let physical_id = l.strip session_id in
      let rest : ActionContext → Text =
        λ x. drop (length (session_namespace_prefix l x)) physical_id in
      let whole : (x : ActionContext)
          → session_belongs_to_placement l x session_id ≡ true
          → b'w' ∷ b's' ∷ b'-' ∷ (digest x ++ ending x (rest x)) ≡ physical_id =
        λ x h.
          sym (prefix-parts x (rest x))
          ∙ starts_with-split physical_id (session_namespace_prefix l x) (and_left _ _ h) in
      let (same, ends) =
        same_length (digest c) (digest d) (ending c (rest c)) (ending d (rest d))
          (digest-length c ∙ sym (digest-length d)) (skip_three (whole c hc ∙ sym (whole d hd))) in
      (
        ap (λ t. b'w' ∷ b's' ∷ b'-' ∷ t) same,
        v.decimal_injective c.placement_generation d.placement_generation (
            digits_unique (l.decimal c.placement_generation) (l.decimal d.placement_generation)
              (rest c) (rest d) (v.decimal_digits c.placement_generation)
              (v.decimal_digits d.placement_generation) (skip_two ends)),
      )
    where
      and_left : (a b : Bool) → a && b ≡ true → a ≡ true
      and_left a b h = ground (arith, h)

      skip_three : {a b c d e f : ℕ} {s t : Text} → a ∷ b ∷ c ∷ s ≡ d ∷ e ∷ f ∷ t → s ≡ t
      skip_three h = cc

      skip_two : {a b c d : ℕ} {s t : Text} → a ∷ b ∷ s ≡ c ∷ d ∷ t → s ≡ t
      skip_two h = cc
