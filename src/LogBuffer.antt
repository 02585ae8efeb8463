-- ===== src/LogBuffer.antt =====
-- src/langbot_plugin/runtime/plugin/logbuffer.py: the ring buffer of the log lines of a plugin. A
-- text is the list of its code points, a stream the list of its bytes; the clock is a function of
-- how often it was read. `Stream` is the reader of the plugin's stderr.
pub mod Stream
pub mod Retained
pub mod Cut
pub mod Bounded
pub mod Query
mod Tests
use langbot_plugin_sdk.Prelude.Deque.{last}
use langbot_plugin_sdk.Prelude.{
  ℕ, ◌+◌, ◌-◌, ◌≡◌, Bool, true, false, ◌&&◌, ◌||◌, not, Option, none, some, List, [], ◌∷◌, ◌++◌,
  length, drop, ltb, leb, if◌then◌else◌, rstrip, ◌==◌, nat_eq, string_eq, String,
}
use langbot_plugin_sdk.Prelude.Int.{ℤ, pos, negsuc, leb_ℤ}

abbrev pub Text : Type 0
Text = List ℕ

-- What the buffer uses of Python: the decoding of bytes with replacements, whether a text is only
-- white space, the level in the text that `_LEVEL_RE` matches, the upper case of a name, and the
-- number of a registered level.
pub record Python : Type 0 where
  pub decode : List ℕ → Text
  pub is_blank : Text → Bool
  pub level_match : Text → Option String
  pub upper : String → String
  pub level_number : String → Option ℤ

abbrev pub is_known_level : String → Bool
is_known_level l =
    l == "DEBUG" || (l == "INFO" || (l == "WARNING" || (l == "ERROR" || l == "CRITICAL")))

pub record Entry : Type 0 where
  pub ts : ℕ
  pub level : String
  pub text : Text

pub data Reader : Type 0 where
  no_reader reading done : Reader

-- `readings` counts how often the clock was read.
pub record Buffer : Type 0 where
  pub max_lines : ℕ
  pub entries : List Entry
  pub last_level : String
  pub reader : Reader
  pub readings : ℕ

abbrev pub new : ℕ → Buffer
new max_lines = record {
  max_lines = max_lines;
  entries = [];
  last_level = "INFO";
  reader = no_reader;
  readings = 0;
}

abbrev pub line_text : Text → Text
line_text raw_line = rstrip b'\r' (rstrip b'\n' raw_line)

-- The level of a line: its own, or the one of the entry before.
unfoldable pub line_level : Option String → String → String
line_level (some level) last_level = if is_known_level level then level else last_level
line_level none last_level = last_level

module _ (p : Python) (clock : ℕ → ℕ) where
  -- `self._buffer.append(...)`, with the level that is kept
  abbrev pub append : Buffer → String → Text → Buffer
  append b level text = record b {
    entries =
        last b.max_lines
          (b.entries ++ record { ts = clock b.readings; level = level; text = text } ∷ []);
    last_level = level;
    readings = b.readings + 1;
  }

  unfoldable pub add_line : Buffer → Text → Buffer
  unfolding line_level
  add_line b raw_line =
      let text = line_text raw_line in
      if p.is_blank text then b else append b (line_level (p.level_match text) b.last_level) text

  unfoldable pub add_entry : Buffer → String → Text → Buffer
  add_entry b level text =
      let normalized_level = p.upper level in
      append b (if is_known_level normalized_level then normalized_level else "INFO") text

abbrev pub has_active_reader : Buffer → Bool
has_active_reader b = elim b.reader [ reading ↦ true | _ ↦ false ]

-- `_level_no`, with 20 for `logging.INFO`
unfoldable pub level_no : Python → String → ℤ
level_no p level_name = elim (p.level_number level_name) [ some n ↦ n | none ↦ pos 20 ]

abbrev pub filter {ℓ} : {A : Type ℓ} → (A → Bool) → List A → List A
filter f [] = []
filter f (x ∷ xs) = if f x then x ∷ filter f xs else filter f xs

-- The entries at `level` or above; an empty or unknown level name filters nothing.
unfoldable pub at_level : Python → Option String → List Entry → List Entry
at_level p none entries = entries
at_level p (some level) entries = if level == "" then entries else elim (p.level_number level) [
  | none ↦ entries
  | some min_no ↦ filter (λ e. leb_ℤ min_no (level_no p e.level)) entries
]

unfoldable pub get_logs : Python → Buffer → ℤ → Option String → List Entry
unfolding at_level
get_logs p b (pos limit) level =
    let entries = at_level p level b.entries in if ltb 0 limit then last limit entries else entries
get_logs p b (negsuc n) level = at_level p level b.entries

unfoldable pub clear : Buffer → Buffer
clear b = record b { entries = [] }

-- `start_reader`: whether a task is spawned, and the buffer.
unfoldable pub start_reader : Buffer → Bool × Buffer
start_reader b = if has_active_reader b then (false, b) else (true, record b { reader = reading })

-- `stop_reader`: whether a task is cancelled, and the buffer.
unfoldable pub stop_reader : Buffer → Bool × Buffer
stop_reader b = (has_active_reader b, record b { reader = no_reader })
