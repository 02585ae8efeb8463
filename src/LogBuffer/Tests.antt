-- ===== src/LogBuffer/Tests.antt =====
-- Runs of the model of logbuffer.py at concrete inputs. A level is one letter at the start of a
-- line, and only the empty text is blank.
use langbot_plugin_sdk.Prelude.{
  ℕ, ◌≡◌, refl, true, false, Option, none, some, List, [], ◌∷◌, ◌++◌, arith, rstrip, String, Bool,
  All, ◌==◌, nat_eq, string_eq, if◌then◌else◌,
}
use langbot_plugin_sdk.Prelude.Int.{ℤ, pos, leb_ℤ}
use langbot_plugin_sdk.Prelude.Deque.{last}
use langbot_plugin_sdk.LogBuffer.{
  Text, Python, Entry, Buffer, new, line_level, add_line, add_entry, level_no, at_level, get_logs,
  filter, clear, start_reader, stop_reader,
}
use langbot_plugin_sdk.LogBuffer.Stream.{
  Draining, parts, flush_line, take_part, take_parts, drain, attach_stream,
}
use langbot_plugin_sdk.LogBuffer.Cut.{attach_stream-cut}
use langbot_plugin_sdk.LogBuffer.Retained.{history, add_lines, retained}
use langbot_plugin_sdk.LogBuffer.Query.{IsRecent, get_logs-IsRecent}

abbrev is_blank : Text → Bool
is_blank [] = true
is_blank (c ∷ t) = false

abbrev level_match : Text → Option String
level_match [] = none
level_match (c ∷ t) =
    if c == b'E'
    then some "ERROR"
    else if c == b'D'
    then some "DEBUG"
    else if c == b'?'
    then some "?"
    else none

abbrev level_number : String → Option ℤ
level_number l =
    if l == "ERROR" then some (pos 40) else if l == "DEBUG" then some (pos 10) else none

abbrev python : Python
python = record {
  decode = λ bytes. bytes;
  is_blank = is_blank;
  level_match = level_match;
  upper = λ s. s;
  level_number = level_number;
}

abbrev clock : ℕ → ℕ
clock n = n

program : Unit {0}
unfolding rstrip line_level add_line add_entry level_no at_level get_logs clear start_reader
    stop_reader parts flush_line take_part take_parts drain attach_stream history
program = tt

-- An error, a line with no level of its own, a blank line, and a line of another level.
abbrev stream : List (List ℕ)
stream = (b'E' ∷ b'1' ∷ b'\n' ∷ b'x' ∷ []) ∷ (b'2' ∷ b'\r' ∷ b'\n' ∷ b'\n' ∷ b'D' ∷ []) ∷ []

abbrev whole : List (List ℕ)
whole = (b'E' ∷ b'1' ∷ b'\n' ∷ b'x' ∷ b'2' ∷ b'\r' ∷ b'\n' ∷ b'\n' ∷ b'D' ∷ []) ∷ []

abbrev logs : List Entry
logs =
    record { ts = 0; level = "ERROR"; text = b'E' ∷ b'1' ∷ [] }
    ∷ record { ts = 1; level = "ERROR"; text = b'x' ∷ b'2' ∷ [] }
    ∷ record { ts = 2; level = "DEBUG"; text = b'D' ∷ [] }
    ∷ []

read_stream : (attach_stream python clock (new 1000) (stream ++ [] ∷ [])).entries ≡ logs
unfolding program
read_stream = refl

attach_stream-cut_example :
    attach_stream python clock (new 2) (stream ++ [] ∷ [])
    ≡ attach_stream python clock (new 2) (whole ++ [] ∷ [])
attach_stream-cut_example =
    attach_stream-cut python clock (new 2) stream whole (refl, (refl, tt)) (refl, tt) refl

abbrev two_lines : List Text
two_lines = (b'E' ∷ b'\n' ∷ []) ∷ (b'x' ∷ []) ∷ []

retained_example :
    (add_lines python clock (new 1) two_lines).entries
    ≡ last 1 (history python clock 0 "INFO" two_lines)
retained_example = retained python clock 1 two_lines

abbrev start : Draining
start = record { pending = []; truncated = false; buffer = new 2 }

abbrev full : Buffer
full = record (new 1000) { entries = logs }

get_logs-IsRecent_example :
    let enough = λ (e : Entry). leb_ℤ (pos 40) (level_no python e.level) in
    let found = get_logs python full (pos 1) (some "ERROR") in
    All (λ e. enough e ≡ true) found × IsRecent 1 (filter enough full.entries) found
unfolding program
get_logs-IsRecent_example = get_logs-IsRecent python full 1 "ERROR" (pos 40) (omega arith) refl refl
