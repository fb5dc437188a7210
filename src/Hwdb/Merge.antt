-- ===== src/Hwdb/Merge.antt =====
-- Files of libraries/libhwdb/Hwdb.cpp that are joined by an empty line.
use android_hardware_mainlin.Prelude.{
  ◌≡◌, refl, ap, ◌∙◌, inl, inr, ◌||◌, List, [], ◌∷◌, ◌++◌, append-nil, append_assoc, arith,
  Bool-cases, Option-cases, is_empty, Bytes, nat_key, bytes_key, AndroidBase, SplitsAtEach,
}
use android_hardware_mainlin.Hwdb.Parser.{
  Entry, State, k_none, k_match, k_data, Parser, finish_record, insert_property, add_pattern,
  cut_at, equals_sign, drop_first, single_blank, feed, strip_trailing_whitespace, before, hash,
  newline, parse_line, parse_lines, end_of_file, parse_all, parse, start,
}
use android_hardware_mainlin.Hwdb.Records.{
  finish_record-entry, IsConsistent, parse_lines-IsConsistent, start-IsConsistent,
}

-- The parser with entries that an earlier file gave.
abbrev prefix : List Entry → Parser → Parser
prefix earlier p = record p { entries = earlier ++ p.entries }

finish_record-prefix :
    (earlier : List Entry) (p : Parser)
    → finish_record (prefix earlier p) ≡ prefix earlier (finish_record p)
unfolding finish_record
finish_record-prefix earlier p =
    elim (Bool-cases (is_empty p.entry.match_patterns || is_empty p.entry.properties)) [
      | inl incomplete ↦ rw incomplete
      | inr complete ↦ rw complete (simp append_assoc)
    ]

insert_property-prefix :
    (earlier : List Entry) (line : Bytes) (p : Parser)
    → insert_property line (prefix earlier p) ≡ prefix earlier (insert_property line p)
unfolding insert_property
insert_property-prefix earlier line p = elim (Option-cases (cut_at equals_sign line)) [
  | inl malformed ↦ rw (malformed, insert_property)
  | inr ((key, value), found) ↦
      rw (found, insert_property)
        (elim (Bool-cases (is_empty (drop_first (single_blank key)))) [
          | inl no_key ↦ rw no_key
          | inr some_key ↦ rw some_key
        ])
]

feed-prefix :
    (earlier : List Entry) (s : State) (line : Bytes) (p : Parser)
    → feed s line (prefix earlier p) ≡ prefix earlier (feed s line p)
unfolding feed add_pattern
feed-prefix earlier k_none line p = ground arith
feed-prefix earlier k_match line p =
    ground (arith, insert_property-prefix earlier line (record p { state = k_data }))
feed-prefix earlier k_data line p =
    ground (arith, insert_property-prefix earlier line p, finish_record-prefix earlier p)

parse_line-prefix :
    (earlier : List Entry) (raw_line : Bytes) (p : Parser)
    → parse_line raw_line (prefix earlier p) ≡ prefix earlier (parse_line raw_line p)
unfolding parse_line
parse_line-prefix earlier [] p = feed-prefix earlier p.state _ p
parse_line-prefix earlier (b ∷ bs) p =
    ground (arith, feed-prefix earlier p.state (strip_trailing_whitespace (before hash (b ∷ bs))) p)

parse_lines-prefix :
    (earlier : List Entry) (lines : List Bytes) (p : Parser)
    → parse_lines lines (prefix earlier p) ≡ prefix earlier (parse_lines lines p)
unfolding parse_lines
parse_lines-prefix earlier [] p = refl
parse_lines-prefix earlier (line ∷ lines) p =
    rw (parse_line-prefix earlier line p) (parse_lines-prefix earlier lines (parse_line line p))

parse_lines-append :
    (a b : List Bytes) (p : Parser) → parse_lines (a ++ b) p ≡ parse_lines b (parse_lines a p)
unfolding parse_lines
parse_lines-append [] b p = refl
parse_lines-append (line ∷ a) b p = parse_lines-append a b (parse_line line p)

-- An empty line leaves the entries as the end of the file would, and nothing else.
empty_line :
    (s : State) (p : Parser)
    → p.state ≡ s
    → IsConsistent p
    → feed s [] p ≡ prefix (end_of_file s p) start
unfolding feed end_of_file
empty_line k_none p e c = ground (arith, c.idle e, append-nil p.entries)
empty_line k_match p e c = ground (arith, append-nil p.entries)
empty_line k_data p e c =
    ground (arith, finish_record-entry p, append-nil (finish_record p).entries)

end_of_file-prefix :
    (earlier : List Entry) (s : State) (p : Parser)
    → end_of_file s (prefix earlier p) ≡ earlier ++ end_of_file s p
unfolding end_of_file
end_of_file-prefix earlier k_none p = refl
end_of_file-prefix earlier k_match p = refl
end_of_file-prefix earlier k_data p = ap (λ q. q.entries) (finish_record-prefix earlier p)

after_empty_line :
    (p : Parser) → IsConsistent p → parse_line [] p ≡ prefix (end_of_file p.state p) start
unfolding parse_line strip_trailing_whitespace before
after_empty_line p c = empty_line p.state p refl c

pub parse_all-append : (a b : List Bytes) → parse_all (a ++ [] ∷ b) ≡ parse_all a ++ parse_all b
unfolding parse_all
parse_all-append a b =
    ap (λ q. end_of_file q.state q) joined ∙ end_of_file-prefix _ _ (parse_lines b start)
  where
    first : Parser
    first = parse_lines a start

    consistent : IsConsistent first
    consistent = parse_lines-IsConsistent a start start-IsConsistent

    joined :
        parse_lines (a ++ [] ∷ b) start
        ≡ prefix (end_of_file first.state first) (parse_lines b start)
    joined =
        parse_lines-append a ([] ∷ b) start
        ∙ unfold parse_lines in
          ap (parse_lines b) (after_empty_line first consistent) ∙ parse_lines-prefix _ b start

-- If Split cuts at each delimiter: two files joined by "\n\n" parse to the entries of the first,
-- then those of the second.
pub parse-append :
    (base : AndroidBase)
    → SplitsAtEach base
    → (a b : Bytes) → parse base (a ++ newline ∷ newline ∷ b) ≡ parse base a ++ parse base b
unfolding parse
parse-append base splits a b =
    ap parse_all (
      splits.split_delimiter a (newline ∷ b) newline
      ∙ ap (◌++◌ (base.split a newline)) (
          splits.split_delimiter [] b newline
          ∙ ap (λ l. l ++ base.split b newline) (splits.split-nil newline)))
    ∙ parse_all-append (base.split a newline) (base.split b newline)

pub parse_nothing : (base : AndroidBase) → SplitsAtEach base → parse base [] ≡ []
unfolding parse parse_all parse_lines parse_line feed strip_trailing_whitespace before end_of_file
parse_nothing base splits = ap parse_all (splits.split-nil newline)
