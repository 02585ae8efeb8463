-- ===== src/LogBuffer/Retained.antt =====
-- What the ring buffer of logbuffer.py retains.
use mathlib.Core.List.{append-nil, append_assoc}
use langbot_plugin_sdk.Prelude.{
  ℕ, ◌+◌, ◌-◌, ◌≡◌, refl, sym, ap, ◌∙◌, ◌⊎◌, inl, inr, List, [], ◌∷◌, ◌++◌, if◌then◌else◌,
  Bool-cases, String,
}
use langbot_plugin_sdk.Prelude.Deque.{last, drop-nil, last-last-snoc}
use langbot_plugin_sdk.LogBuffer.{
  Text, Python, Buffer, Entry, line_text, line_level, add_line, append, new,
}

module _ (p : Python) (clock : ℕ → ℕ) where
  -- Every line that was ever added, with the level that the lines before it give: no bound.
  unfoldable pub history : ℕ → String → List Text → List Entry
  history readings last_level [] = []
  history readings last_level (raw_line ∷ lines) =
      let text = line_text raw_line in
      let level = line_level (p.level_match text) last_level in
      if p.is_blank text
      then history readings last_level lines
      else record { ts = clock readings; level = level; text = text }
        ∷ history (readings + 1) level lines

  abbrev pub add_lines : Buffer → List Text → Buffer
  add_lines b [] = b
  add_lines b (line ∷ lines) = add_lines (add_line p clock b line) lines

  -- A line and the history from it on.
  add_line-cases :
      (b : Buffer) (line : Text) (lines : List Text)
      → ((add_line p clock b line ≡ b)
          × (history b.readings b.last_level (line ∷ lines)
              ≡ history b.readings b.last_level lines))
        ⊎ ((level : String) × (add_line p clock b line ≡ append p clock b level (line_text line))
            × (history b.readings b.last_level (line ∷ lines)
                ≡ record { ts = clock b.readings; level = level; text = line_text line }
                  ∷ history (b.readings + 1) level lines))
  unfolding add_line history
  add_line-cases b line lines = elim (Bool-cases (p.is_blank (line_text line))) [
    | inl blank ↦ inl (rw blank refl, rw blank refl)
    | inr some_text ↦ inr (
      line_level (p.level_match (line_text line)) b.last_level,
      rw some_text refl,
      rw some_text refl,
    )
  ]

  add_lines-entries :
      (b : Buffer) (older : List Entry) (lines : List Text)
      → b.entries ≡ last b.max_lines older
      → (add_lines b lines).entries
        ≡ last b.max_lines (older ++ history b.readings b.last_level lines)
  unfolding history
  add_lines-entries b older [] h = rw append-nil h
  add_lines-entries b older (line ∷ lines) h = elim (add_line-cases b line lines) [
    | inl (same, later) ↦
        ap (λ b'. (add_lines b' lines).entries) same
        ∙ add_lines-entries b older lines h
        ∙ ap (λ es. last b.max_lines (older ++ es)) (sym later)
    | inr (level, added, later) ↦
        let entry : Entry = record {
          ts = clock b.readings;
          level = level;
          text = line_text line;
        } in
        ap (λ b'. (add_lines b' lines).entries) added
        ∙ add_lines-entries (append p clock b level (line_text line)) (older ++ entry ∷ []) lines (
            ap (λ es. last b.max_lines (es ++ entry ∷ [])) h
            ∙ last-last-snoc b.max_lines older entry)
        ∙ ap (λ es. last b.max_lines es)
            (append_assoc older (entry ∷ []) (history (b.readings + 1) level lines)
              ∙ ap (λ es. older ++ es) (sym later))
  ]

  -- However many lines a new buffer was given, it holds exactly the last `max_lines` entries of the
  -- full history, in which blank lines are left out and a line with no level of its own has the level
  -- of the line before.
  pub retained :
      (max_lines : ℕ) (lines : List Text)
      → (add_lines (new max_lines) lines).entries ≡ last max_lines (history 0 "INFO" lines)
  retained max_lines lines =
      add_lines-entries (new max_lines) [] lines (sym (drop-nil (0 - max_lines)))
