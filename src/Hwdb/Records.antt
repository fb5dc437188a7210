-- ===== src/Hwdb/Records.antt =====
-- What Hwdb::Parse keeps: each entry is a record with patterns and properties, and between two
-- records nothing is left over.
use android_hardware_mainlin.Prelude.{
  ◌≡◌, refl, sym, subst, inl, inr, false, ◌||◌, none, List, [], ◌∷◌, arith, ◌==◌, Bool-cases,
  Option-cases, is_empty, All, All-append, Bytes, bytes_eq, bytes_eq_iff, nat_key, bytes_key,
  lookup, insert, lookup-insert, AndroidBase,
}
use android_hardware_mainlin.Hwdb.Parser.{
  Entry, no_entry, State, k_none, k_match, k_data, Parser, finish_record, insert_property,
  add_pattern, starts_with_space, cut_at, equals_sign, drop_first, single_blank, feed, hash,
  parse_line, parse_lines, end_of_file, parse_all, parse, start,
}

-- The keys of a map are distinct.
abbrev pub UniqueKeys : List (Bytes × Bytes) → Type 0
UniqueKeys [] = Unit {0}
UniqueKeys ((key, value) ∷ props) = (lookup key props ≡ none) × UniqueKeys props

insert-UniqueKeys :
    (key value : Bytes) (props : List (Bytes × Bytes))
    → UniqueKeys props
    → UniqueKeys (insert key value props)
insert-UniqueKeys key value [] u = (refl, tt)
insert-UniqueKeys key value ((k, v) ∷ props) u = elim (Bool-cases (bytes_eq k key)) [
  | inl same ↦ rw same (subst (λ j. lookup j props ≡ none) ((bytes_eq_iff k key).0 same) u.0, u.1)
  | inr other ↦ rw other (
    ground (arith, lookup-insert key k value props, bytes_eq_iff key k, bytes_eq_iff k key, u.0),
    insert-UniqueKeys key value props u.1,
  )
]

pub record IsRecord (e : Entry) : Type 0 where
  pub has_pattern : is_empty e.match_patterns ≡ false
  pub has_property : is_empty e.properties ≡ false
  pub unique : UniqueKeys e.properties

pub record IsConsistent (p : Parser) : Type 0 where
  pub records : All IsRecord p.entries
  pub unique : UniqueKeys p.entry.properties
  pub idle : p.state ≡ k_none → p.entry ≡ no_entry

finish_record-records : (p : Parser) → IsConsistent p → All IsRecord (finish_record p).entries
unfolding finish_record
finish_record-records p c =
    elim (Bool-cases (is_empty p.entry.match_patterns || is_empty p.entry.properties)) [
      | inl incomplete ↦ rw incomplete c.records
      | inr complete ↦ rw complete (
          All-append IsRecord p.entries _ c.records (
            record { has_pattern = ground arith; has_property = ground arith; unique = c.unique },
            tt,
          ))
    ]

pub finish_record-entry : (p : Parser) → (finish_record p).entry ≡ no_entry
unfolding finish_record
finish_record-entry p = ground arith

insert_property_keeps :
    (line : Bytes) (p : Parser)
    → UniqueKeys p.entry.properties
    → UniqueKeys (insert_property line p).entry.properties
      × ((insert_property line p).entries ≡ p.entries)
      × ((insert_property line p).state ≡ p.state)
unfolding insert_property
insert_property_keeps line p u = elim (Option-cases (cut_at equals_sign line)) [
  | inl malformed ↦ rw (malformed, insert_property) (u, refl, refl)
  | inr ((prefix, value), found) ↦
      rw (found, insert_property)
        (elim (Bool-cases (is_empty (drop_first (single_blank prefix)))) [
          | inl no_key ↦ rw no_key (u, refl, refl)
          | inr key ↦ rw key (insert-UniqueKeys _ value p.entry.properties u, refl, refl)
        ])
]

insert_property-IsConsistent :
    (line : Bytes) (p : Parser)
    → IsConsistent p
    → p.state ≡ k_data
    → IsConsistent (insert_property line p)
insert_property-IsConsistent line p c s =
    let (u, same, state) = insert_property_keeps line p c.unique in
    record { records = subst (All IsRecord) (sym same) c.records; unique = u; idle = λ e. cc }

add_pattern-IsConsistent :
    (line : Bytes) (p : Parser) → IsConsistent p → IsConsistent (add_pattern line p)
unfolding add_pattern
add_pattern-IsConsistent line p c = record {
  records = c.records;
  unique = c.unique;
  idle = λ e. cc;
}

finished :
    (p : Parser) → IsConsistent p → IsConsistent (record (finish_record p) { state = k_none })
finished p c = record {
  records = finish_record-records p c;
  unique = subst (λ e. UniqueKeys e.properties) (sym (finish_record-entry p)) tt;
  idle = λ e. finish_record-entry p;
}

feed-IsConsistent :
    (s : State) (line : Bytes) (p : Parser)
    → p.state ≡ s
    → IsConsistent p
    → IsConsistent (feed s line p)
unfolding feed
feed-IsConsistent k_none line p e c = elim (Bool-cases (is_empty line)) [
  | inl blank_line ↦ rw blank_line c
  | inr text ↦ rw text (elim (Bool-cases (starts_with_space line)) [
    | inl indented ↦ rw indented c
    | inr pattern' ↦ rw pattern' (add_pattern-IsConsistent line p c)
  ])
]
feed-IsConsistent k_match line p e c = elim (Bool-cases (is_empty line)) [
  | inl blank_line ↦ rw blank_line (record { records = c.records; unique = tt; idle = λ _. refl })
  | inr text ↦ rw text (elim (Bool-cases (starts_with_space line)) [
    | inl indented ↦ rw indented (
        insert_property-IsConsistent line _
          (record { records = c.records; unique = c.unique; idle = λ h. cc }) refl)
    | inr pattern' ↦ rw pattern' (add_pattern-IsConsistent line p c)
  ])
]
feed-IsConsistent k_data line p e c = elim (Bool-cases (is_empty line)) [
  | inl blank_line ↦ rw blank_line (finished p c)
  | inr text ↦ rw text (elim (Bool-cases (starts_with_space line)) [
    | inl indented ↦ rw indented (insert_property-IsConsistent line p c e)
    | inr stray ↦ rw stray (finished p c)
  ])
]

pub parse_line-IsConsistent :
    (raw_line : Bytes) (p : Parser) → IsConsistent p → IsConsistent (parse_line raw_line p)
unfolding parse_line
parse_line-IsConsistent [] p c = feed-IsConsistent p.state _ p refl c
parse_line-IsConsistent (b ∷ bs) p c = elim (Bool-cases (b == hash)) [
  | inl comment ↦ rw comment c
  | inr text ↦ rw text (feed-IsConsistent p.state _ p refl c)
]

pub parse_lines-IsConsistent :
    (lines : List Bytes) (p : Parser) → IsConsistent p → IsConsistent (parse_lines lines p)
unfolding parse_lines
parse_lines-IsConsistent [] p c = c
parse_lines-IsConsistent (line ∷ lines) p c =
    parse_lines-IsConsistent lines _ (parse_line-IsConsistent line p c)

pub start-IsConsistent : IsConsistent start
start-IsConsistent = record { records = tt; unique = tt; idle = λ e. refl }

end_of_file-records : (s : State) (p : Parser) → IsConsistent p → All IsRecord (end_of_file s p)
unfolding end_of_file
end_of_file-records k_none p c = c.records
end_of_file-records k_match p c = c.records
end_of_file-records k_data p c = finish_record-records p c

pub parse_all-records : (lines : List Bytes) → All IsRecord (parse_all lines)
unfolding parse_all
parse_all-records lines =
    end_of_file-records _ _ (parse_lines-IsConsistent lines start start-IsConsistent)

-- Every entry of a parsed file has a pattern and a property, and its keys are distinct.
pub parse-records : (base : AndroidBase) (content : Bytes) → All IsRecord (parse base content)
unfolding parse
parse-records base content = parse_all-records _
