-- ===== src/Hwdb/Parser.antt =====
-- libraries/libhwdb/Hwdb.cpp: Hwdb::Parse, the state machine over the lines of a file.
use android_hardware_mainlin.Prelude.{
  ℕ, Bool, false, ◌&&◌, ◌||◌, Option, none, some, List, [], ◌∷◌, ◌++◌, leb, ◌==◌, if◌then◌else◌,
  is_empty, Bytes, nat_key, bytes_key, insert, AndroidBase,
}

abbrev pub hash : ℕ
hash = b'#'

abbrev pub equals_sign : ℕ
equals_sign = b'='

abbrev pub space : ℕ
space = b' '

abbrev pub newline : ℕ
newline = 10

-- isspace(3) in the C locale.
unfoldable pub is_space : ℕ → Bool
is_space c = c == space || (leb 9 c && leb c 13)

-- IsBlank.
unfoldable pub is_blank : ℕ → Bool
is_blank c = c == space || c == 9

-- The loop that pops white space off the end.
unfoldable pub strip_trailing_whitespace : Bytes → Bytes
strip_trailing_whitespace [] = []
strip_trailing_whitespace (c ∷ cs) =
    let rest = strip_trailing_whitespace cs in if is_empty rest && is_space c then [] else c ∷ rest

-- substr(0, find(c)).
unfoldable pub before : ℕ → Bytes → Bytes
before d [] = []
before d (c ∷ cs) = let rest = before d cs in if c == d then [] else c ∷ rest

abbrev prepend : ℕ → Option (Bytes × Bytes) → Option (Bytes × Bytes)
prepend c none = none
prepend c (some (key, value)) = some (c ∷ key, value)

-- What stands before and after the first d, if there is one.
unfoldable pub cut_at : ℕ → Bytes → Option (Bytes × Bytes)
cut_at d [] = none
cut_at d (c ∷ cs) = let rest = prepend c (cut_at d cs) in if c == d then some ([], cs) else rest

unfoldable pub starts_with_space : Bytes → Bool
starts_with_space [] = false
starts_with_space (c ∷ cs) = c == space

pub record Entry : Type 0 where
  pub match_patterns : List Bytes
  pub properties : List (Bytes × Bytes)

abbrev pub no_entry : Entry
no_entry = record { match_patterns = []; properties = [] }

pub data State : Type 0 where
  k_none k_match k_data : State

-- The local variables of Parse.
pub record Parser : Type 0 where
  pub entries : List Entry
  pub state : State
  pub entry : Entry

-- finish_record: an entry counts only with a pattern and a property.
unfoldable pub finish_record : Parser → Parser
finish_record p =
    if is_empty p.entry.match_patterns || is_empty p.entry.properties
    then record p { entry = no_entry }
    else record p { entries = p.entries ++ p.entry ∷ []; entry = no_entry }

-- Multiple leading blanks are replaced by a single one.
unfoldable pub single_blank : Bytes → Bytes
single_blank [] = []
single_blank (a ∷ []) = a ∷ []
single_blank (a ∷ b ∷ rest) =
    let shorter = single_blank (b ∷ rest) in
    if is_blank a && is_blank b then shorter else a ∷ b ∷ rest

abbrev pub drop_first : Bytes → Bytes
drop_first [] = []
drop_first (c ∷ cs) = cs

unfoldable pub add_property : Bytes → Bytes → Parser → Parser
add_property key value p = if is_empty key then p else record p {
  entry = record {
    match_patterns = p.entry.match_patterns;
    properties = insert key value p.entry.properties;
  };
}

-- insert_property: the key stands between the leading blank and the first '='.
unfoldable pub insert_property : Bytes → Parser → Parser
unfolding add_property
insert_property line p = elim (cut_at equals_sign line) [
  | none ↦ p
  | some (prefix, value) ↦ add_property (drop_first (single_blank prefix)) value p
]

unfoldable pub add_pattern : Bytes → Parser → Parser
add_pattern line p = record p {
  entry = record {
    match_patterns = p.entry.match_patterns ++ line ∷ [];
    properties = p.entry.properties;
  };
  state = k_match;
}

-- The `switch` over the state, for a line without its comment and trailing white space.
unfoldable pub feed : State → Bytes → Parser → Parser
feed k_none line p =
    if is_empty line then p else (if starts_with_space line then p else add_pattern line p)
feed k_match line p =
    if is_empty line
    then record p { entry = no_entry; state = k_none }
    else (if starts_with_space line
        then insert_property line (record p { state = k_data })
        else add_pattern line p)
feed k_data line p =
    if is_empty line
    then record (finish_record p) { state = k_none }
    else (if starts_with_space line
        then insert_property line p
        else record (finish_record p) { state = k_none })

-- One round of the loop: comment lines are skipped, and a later '#' cuts the line.
unfoldable pub parse_line : Bytes → Parser → Parser
parse_line raw_line p =
    let line = strip_trailing_whitespace (before hash raw_line) in
    let fed = feed p.state line p in
    elim raw_line [ [] ↦ fed | c ∷ cs ↦ if c == hash then p else fed ]

unfoldable pub parse_lines : List Bytes → Parser → Parser
parse_lines [] p = p
parse_lines (line ∷ lines) p = parse_lines lines (parse_line line p)

abbrev pub start : Parser
start = record { entries = []; state = k_none; entry = no_entry }

-- What follows the loop: a record that the end of the file cuts off is finished.
unfoldable pub end_of_file : State → Parser → List Entry
end_of_file k_none p = p.entries
end_of_file k_match p = p.entries
end_of_file k_data p = (finish_record p).entries

unfoldable pub parse_all : List Bytes → List Entry
parse_all lines = let p = parse_lines lines start in end_of_file p.state p

-- Hwdb::Parse, which never fails.
unfoldable pub parse : AndroidBase → Bytes → List Entry
parse base content = parse_all (base.split content newline)

-- Hwdb::FromFile; `read_file` is ReadFileToString.
unfoldable pub from_file : AndroidBase → (Bytes → Option Bytes) → Bytes → Option (List Entry)
unfolding parse
from_file base read_file path = elim (read_file path) [
  | none ↦ none
  | some content ↦ some (parse base content)
]
