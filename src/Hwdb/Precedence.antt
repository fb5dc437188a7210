-- ===== src/Hwdb/Precedence.antt =====
-- The order of precedence of the lookups of libraries/libhwdb/Hwdb.cpp.
use android_hardware_mainlin.Prelude.{
  ◌≡◌, refl, sym, ap, ◌∙◌, inl, inr, Bool, Option, none, some, List, [], ◌∷◌, ◌++◌, arith,
  if◌then◌else◌, Bool-cases, get_or_else, All, Bytes, bytes_eq_iff, nat_key, bytes_key, lookup,
  insert, lookup-insert, AndroidBase, SplitsAtEach,
}
use android_hardware_mainlin.Hwdb.Parser.{Entry, newline, parse}
use android_hardware_mainlin.Hwdb.Lookup.{
  Properties, collect, matched, match_and_collect, get_properties, get_property,
}
use android_hardware_mainlin.Hwdb.Records.{IsRecord, UniqueKeys, parse-records}
use android_hardware_mainlin.Hwdb.Merge.{parse-append}

-- The first value if there is one.
abbrev pub or_else : Option Bytes → Option Bytes → Option Bytes
or_else none b = b
or_else (some v) b = some v

pub or_else_assoc : (a b c : Option Bytes) → or_else (or_else a b) c ≡ or_else a (or_else b c)
or_else_assoc none b c = refl
or_else_assoc (some v) b c = refl

pub or_else-none : (a : Option Bytes) → or_else a none ≡ a
or_else-none none = refl
or_else-none (some v) = refl

get_or_else-or_else :
    (a b : Option Bytes) (d : Bytes) → get_or_else (or_else a b) d ≡ get_or_else a (get_or_else b d)
get_or_else-or_else none b d = refl
get_or_else-or_else (some v) b d = refl

lookup-collect :
    (key : Bytes) (props result : Properties)
    → UniqueKeys props
    → lookup key (collect props result) ≡ or_else (lookup key props) (lookup key result)
unfolding collect
lookup-collect key [] result u = refl
lookup-collect key ((k, v) ∷ props) result u = ground (
  arith,
  lookup-collect key props (insert k v result) u.1,
  lookup-insert k key v result,
  bytes_eq_iff k key,
  u.0,
)

module _ (matches : Bytes → Bytes → Bool) where
  -- The reference: the value that the last matching entry gives to the key.
  abbrev pub last_value : Bytes → Bytes → List Entry → Option Bytes
  last_value query key [] = none
  last_value query key (e ∷ es) =
      or_else (last_value query key es)
        (if matched matches query e then lookup key e.properties else none)

  pub lookup-match_and_collect :
      (query key : Bytes) (entries : List Entry) (result : Properties)
      → All IsRecord entries
      → lookup key (match_and_collect matches entries query result)
        ≡ or_else (last_value query key entries) (lookup key result)
  unfolding match_and_collect
  lookup-match_and_collect query key [] result r = refl
  lookup-match_and_collect query key (e ∷ es) result r =
      lookup-match_and_collect query key es _ r.1 ∙ elim (Bool-cases (matched matches query e)) [
        | inl hit ↦ rw hit (
            ap (or_else (last_value query key es))
              (lookup-collect key e.properties result r.0.unique)
            ∙ sym (or_else_assoc (last_value query key es) _ _))
        | inr miss ↦
            rw miss (
              ap (λ o. or_else o (lookup key result))
                (sym (or_else-none (last_value query key es))))
      ]

  last_value-append :
      (query key : Bytes) (a b : List Entry)
      → last_value query key (a ++ b) ≡ or_else (last_value query key b) (last_value query key a)
  last_value-append query key [] b = sym (or_else-none _)
  last_value-append query key (e ∷ a) b =
      rw (last_value-append query key a b) (or_else_assoc (last_value query key b) _ _)

  -- A lookup in a parsed file gives the value of the last entry that matches and has the key, or
  -- the default.
  pub get_property-last :
      (base : AndroidBase) (content query key default_value : Bytes)
      → get_property matches (parse base content) query key default_value
        ≡ get_or_else (last_value query key (parse base content)) default_value
  unfolding get_property get_properties
  get_property-last base content query key default_value =
      ap (λ o. get_or_else o default_value)
        (lookup-match_and_collect query key (parse base content) [] (parse-records base content)
          ∙ or_else-none _)

  -- If Split cuts at each delimiter: of two files joined by "\n\n", the later takes precedence,
  -- key by key, and the earlier gives the value where the later has none.
  pub get_property_merged :
      (base : AndroidBase)
      → SplitsAtEach base
      → (a b query key default_value : Bytes)
      → get_property matches (parse base (a ++ newline ∷ newline ∷ b)) query key default_value
        ≡ get_property matches
            (parse base b)
            query
            key
            (get_property matches (parse base a) query key default_value)
  get_property_merged base splits a b query key default_value =
      get_property-last base (a ++ newline ∷ newline ∷ b) query key default_value
      ∙ ap (λ es. get_or_else (last_value query key es) default_value)
          (parse-append base splits a b)
      ∙ ap (λ o. get_or_else o default_value)
          (last_value-append query key (parse base a) (parse base b))
      ∙ get_or_else-or_else (last_value query key (parse base b)) _ default_value
      ∙ ap (get_or_else (last_value query key (parse base b)))
          (sym (get_property-last base a query key default_value))
      ∙ sym (get_property-last base b query key _)
