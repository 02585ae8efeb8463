-- ===== src/Box/Tenancy.antt =====
-- box/tenancy.py: the names of the sessions of a Workspace. A text is the list of its code points.
-- `sha256` stands for the hexadecimal SHA-256 digest of the UTF-8 text of an instance and a
-- Workspace with a NUL between them, `decimal` for Python's `str` of a number, `strip` for `str.strip`.
pub mod Separate
pub mod Named
use langbot_plugin_sdk.Prelude.{
  ℕ, String, Bool, true, false, ◌&&◌, ◌||◌, not, List, [], ◌∷◌, ◌++◌, length, take, drop, leb, ltb,
  if◌then◌else◌, lstrip, rstrip, Option, none, some, ◌==◌, nat_eq,
}
use langbot_plugin_sdk.Context.{ActionContext}

abbrev pub Text : Type 0
Text = List ℕ

pub record Library : Type 0 where
  pub sha256 : String → String → Text
  pub decimal : ℕ → Text
  pub strip : Text → Text

abbrev in_range : ℕ → ℕ → ℕ → Bool
in_range a b c = leb a c && leb c b

-- `[A-Za-z0-9_.-]`
abbrev pub is_id_char : ℕ → Bool
is_id_char c =
    in_range b'A' b'Z' c
    || (in_range b'a' b'z' c || (in_range b'0' b'9' c || (c == b'_' || (c == b'.' || c == b'-'))))

abbrev begins_run : Text → Bool
begins_run [] = false
begins_run (c ∷ t) = not (is_id_char c)

-- `re.sub(r"[^A-Za-z0-9_.-]+", "-", text)`: each run of other characters becomes one dash.
unfoldable pub dash_runs : Text → Text
dash_runs [] = []
dash_runs (c ∷ t) =
    let rest = dash_runs t in
    if is_id_char c then c ∷ rest else if begins_run t then rest else b'-' ∷ rest

abbrev pub starts_with : Text → Text → Bool
starts_with t [] = true
starts_with [] (p ∷ ps) = false
starts_with (c ∷ t) (p ∷ ps) = c == p && starts_with t ps

module _ (l : Library) where
  unfoldable pub box_namespace : ActionContext → Text
  box_namespace c = b'w' ∷ b's' ∷ b'-' ∷ take 24 (l.sha256 c.instance_uuid c.workspace_uuid)

  unfoldable pub box_runtime_namespace : ActionContext → Text
  unfolding box_namespace
  box_runtime_namespace c = box_namespace c ++ b'-' ∷ b'g' ∷ l.decimal c.placement_generation

  -- The part after the namespace, or `none` where the code raises.
  unfoldable pub safe_id : Text → Option Text
  unfolding dash_runs
  safe_id session_id =
      let safe = rstrip b'-' (lstrip b'-' (dash_runs (l.strip session_id))) in
      elim safe [ [] ↦ none | c ∷ t ↦ some (c ∷ t) ]

  unfoldable pub session_namespace_prefix : ActionContext → Text
  unfolding box_runtime_namespace
  session_namespace_prefix c = box_runtime_namespace c ++ b'-' ∷ []

  unfoldable pub workspace_session_namespace_prefix : ActionContext → Text
  unfolding box_namespace
  workspace_session_namespace_prefix c = box_namespace c ++ b'-' ∷ []

  unfoldable pub namespace_session_id : ActionContext → Text → Option Text
  unfolding safe_id box_runtime_namespace
  namespace_session_id c session_id = elim (safe_id session_id) [
    | none ↦ none
    | some id ↦ some (box_runtime_namespace c ++ b'-' ∷ id)
  ]

  unfoldable pub session_belongs_to_placement : ActionContext → Text → Bool
  unfolding session_namespace_prefix
  session_belongs_to_placement c session_id =
      let physical_id = l.strip session_id in
      let prefix = session_namespace_prefix c in
      starts_with physical_id prefix && ltb (length prefix) (length physical_id)

  unfoldable pub logical_session_id : ActionContext → Text → Text
  unfolding session_namespace_prefix
  logical_session_id c session_id =
      let physical_id = l.strip session_id in
      let prefix = session_namespace_prefix c in
      if starts_with physical_id prefix then drop (length prefix) physical_id else physical_id
