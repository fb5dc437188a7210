-- ===== src/Sensors/Settings/Files.antt =====
-- The order of precedence of the files that Reload of Settings.cpp reads.
use android_hardware_mainlin.Prelude.{
  ◌≡◌, refl, sym, ap, ◌∙◌, inl, inr, Bool, true, false, ◌&&◌, ◌||◌, Option, none, some, List, [],
  ◌∷◌, ◌++◌, ◌==◌, if◌then◌else◌, Bool-cases, Option-cases, is_empty, Bytes, codes, bytes_eq,
  nat_key, bytes_key, lookup, insert, lookup-insert, AndroidBase,
}
use android_hardware_mainlin.Hwdb.Parser.{cut_at, equals_sign, hash}
use android_hardware_mainlin.Hwdb.Precedence.{or_else, or_else_assoc, or_else-none}
use android_hardware_mainlin.Sensors.Settings.{
  Environment, Settings, Loading, config_dirs, property_prefix, with_section, last_byte,
  without_last, semicolon, load_assignment, load_trimmed, load_lines, load_content, load_file,
  load_entries, load_dirs, reload, get_from_files, get_string,
}

abbrev Values : Type 0
Values = List (Bytes × Bytes)

-- `l` is what the lines alone would give, on top of the values `earlier`.
record IsOver (earlier : Values) (l alone : Loading) : Type 0 where
  section : l.section ≡ alone.section
  values :
      (key : Bytes) → lookup key l.values ≡ or_else (lookup key alone.values) (lookup key earlier)

or_else-if :
    (c : Bool) (v : Bytes) (a b : Option Bytes)
    → (if c then some v else or_else a b) ≡ or_else (if c then some v else a) b
or_else-if true v a b = refl
or_else-if false v a b = refl

assign-IsOver :
    (earlier : Values) (l alone : Loading) (key value : Bytes)
    → IsOver earlier l alone
    → IsOver earlier
        (record l { values = insert (with_section l.section key) value l.values })
        (record alone { values = insert (with_section alone.section key) value alone.values })
assign-IsOver earlier l alone key value o = record {
  section = o.section;
  values = λ j.
      lookup-insert (with_section l.section key) j value l.values
      ∙ ap (λ s. if bytes_eq (with_section s key) j then some value else lookup j l.values)
          o.section
      ∙ ap (λ t. if bytes_eq (with_section alone.section key) j then some value else t) (o.values j)
      ∙ or_else-if (bytes_eq (with_section alone.section key) j) value _ _
      ∙ ap (λ t. or_else t (lookup j earlier))
          (sym (lookup-insert (with_section alone.section key) j value alone.values));
}

module _ (base : AndroidBase) where
  load_assignment-IsOver :
      (earlier : Values) (line : Bytes) (l alone : Loading)
      → IsOver earlier l alone
      → IsOver earlier (load_assignment base line l) (load_assignment base line alone)
  unfolding load_assignment
  load_assignment-IsOver earlier line l alone o = elim (Option-cases (cut_at equals_sign line)) [
    | inl malformed ↦ rw (malformed, load_assignment) o
    | inr ((key, value), found) ↦
        rw (found, load_assignment)
          (elim (Bool-cases (is_empty (base.trim key))) [
            | inl no_key ↦ rw no_key o
            | inr some_key ↦
                rw some_key (assign-IsOver earlier l alone (base.trim key) (base.trim value) o)
          ])
  ]

  if-IsOver :
      (c : Bool) (earlier : Values) (l alone l' alone' : Loading)
      → IsOver earlier l alone
      → IsOver earlier l' alone'
      → IsOver earlier (if c then l else l') (if c then alone else alone')
  if-IsOver true earlier l alone l' alone' o o' = o
  if-IsOver false earlier l alone l' alone' o o' = o'

  load_trimmed-IsOver :
      (earlier : Values) (line : Bytes) (l alone : Loading)
      → IsOver earlier l alone
      → IsOver earlier (load_trimmed base line l) (load_trimmed base line alone)
  unfolding load_trimmed
  load_trimmed-IsOver earlier [] l alone o = o
  load_trimmed-IsOver earlier (b ∷ bs) l alone o =
      if-IsOver ((b == hash) || (b == semicolon)) earlier l alone _ _ o (
        if-IsOver ((b == 91) && (last_byte b bs == 93)) earlier
          (record l { section = base.trim (without_last bs) })
          (record alone { section = base.trim (without_last bs) }) _ _
          (record { section = refl; values = o.values })
          (load_assignment-IsOver earlier (b ∷ bs) l alone o))

  load_lines-IsOver :
      (earlier : Values) (lines : List Bytes) (l alone : Loading)
      → IsOver earlier l alone
      → IsOver earlier (load_lines base lines l) (load_lines base lines alone)
  unfolding load_lines
  load_lines-IsOver earlier [] l alone o = o
  load_lines-IsOver earlier (line ∷ lines) l alone o =
      load_lines-IsOver earlier lines _ _ (load_trimmed-IsOver earlier (base.trim line) l alone o)

  lookup-load_content :
      (key content : Bytes) (earlier : Values)
      → lookup key (load_content base content earlier)
        ≡ or_else (lookup key (load_content base content [])) (lookup key earlier)
  unfolding load_content
  lookup-load_content key content earlier =
      (load_lines-IsOver earlier (base.split content 10) (record { section = []; values = earlier })
          (record { section = []; values = [] })
          (record { section = refl; values = λ j. refl })).values
        key

  module _ (env : Environment) where
    -- The value that one file gives, and that the last of the files gives.
    abbrev pub file_value : Bytes → Bytes → Option Bytes
    file_value key path = elim (env.read_file path) [
      | none ↦ none
      | some content ↦ lookup key (load_content base content [])
    ]

    abbrev pub last_file_value : Bytes → List Bytes → Option Bytes
    last_file_value key [] = none
    last_file_value key (path ∷ paths) = or_else (last_file_value key paths) (file_value key path)

    -- The .conf files of the directories, in order.
    abbrev pub conf_files : Bytes → List Bytes → List Bytes
    conf_files dir [] = []
    conf_files dir (entry ∷ entries) =
        let rest = conf_files dir entries in
        if base.ends_with entry (codes ".conf") then (dir ++ codes "/" ++ entry) ∷ rest else rest

    abbrev pub conf_paths : List Bytes → List Bytes
    conf_paths [] = []
    conf_paths (dir ∷ dirs) = conf_files dir (env.list_directory dir) ++ conf_paths dirs

    last_file_value-append :
        (key : Bytes) (a b : List Bytes)
        → last_file_value key (a ++ b) ≡ or_else (last_file_value key b) (last_file_value key a)
    last_file_value-append key [] b = sym (or_else-none _)
    last_file_value-append key (path ∷ a) b =
        rw (last_file_value-append key a b) (or_else_assoc (last_file_value key b) _ _)

    get-load_file :
        (key path : Bytes) (s : Settings)
        → get_from_files key (load_file base env path s)
          ≡ or_else (file_value key path) (get_from_files key s)
    unfolding get_from_files load_file
    get-load_file key path s = elim (Option-cases (env.read_file path)) [
      | inl unreadable ↦ rw (unreadable, load_file, file_value) refl
      | inr (content, readable) ↦
          rw (readable, load_file, file_value) (lookup-load_content key content s.file_values)
    ]

    get-load_entries :
        (key dir : Bytes) (entries : List Bytes) (s : Settings)
        → get_from_files key (load_entries base env dir entries s)
          ≡ or_else (last_file_value key (conf_files dir entries)) (get_from_files key s)
    unfolding load_entries
    get-load_entries key dir [] s = refl
    get-load_entries key dir (entry ∷ entries) s =
        elim (Bool-cases (base.ends_with entry (codes ".conf"))) [
          | inl conf ↦ rw conf (
              get-load_entries key dir entries _
              ∙ ap (or_else (last_file_value key (conf_files dir entries))) (get-load_file key _ s)
              ∙ sym (or_else_assoc (last_file_value key (conf_files dir entries)) _ _))
          | inr other ↦ rw other (get-load_entries key dir entries s)
        ]

    get-load_dirs :
        (key : Bytes) (dirs : List Bytes) (s : Settings)
        → get_from_files key (load_dirs base env dirs s)
          ≡ or_else (last_file_value key (conf_paths dirs)) (get_from_files key s)
    unfolding load_dirs
    get-load_dirs key [] s = refl
    get-load_dirs key (dir ∷ dirs) s =
        get-load_dirs key dirs _
        ∙ ap (or_else (last_file_value key (conf_paths dirs)))
            (get-load_entries key dir (env.list_directory dir) s)
        ∙ sym (or_else_assoc (last_file_value key (conf_paths dirs)) _ _)
        ∙ ap (λ o. or_else o (get_from_files key s))
            (sym (
              last_file_value-append key (conf_files dir (env.list_directory dir))
                (conf_paths dirs)))

    -- After Reload, GetString gives the Android property if it is not empty, and otherwise the value
    -- of the last .conf file that can be read and assigns the key, if there is one.
    pub get_string-precedence :
        (key : Bytes)
        → get_string env (reload base env) key ≡ (
            if is_empty (env.get_android_property (property_prefix ++ key))
            then last_file_value key (conf_paths config_dirs)
            else some (env.get_android_property (property_prefix ++ key)))
    unfolding get_string reload get_from_files
    get_string-precedence key =
        ap
          (λ o.
            if is_empty (env.get_android_property (property_prefix ++ key))
            then o
            else some (env.get_android_property (property_prefix ++ key)))
          (get-load_dirs key config_dirs (record { file_values = []; loaded_files = [] })
            ∙ or_else-none _)
