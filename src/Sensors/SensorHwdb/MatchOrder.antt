-- ===== src/Sensors/SensorHwdb/MatchOrder.antt =====
-- Which file and which match string of SensorHwdb.cpp give a property.
use android_hardware_mainlin.Prelude.{
  ◌≡◌, refl, sym, ap, ◌∙◌, inl, inr, Bool, true, false, Option, none, some, List, [], ◌∷◌, ◌++◌,
  arith, if◌then◌else◌, Bool-cases, Option-cases, is_empty, Bytes, codes, bytes_eq, bytes_eq_iff,
  nat_key, bytes_key, lookup, lookup-insert, AndroidBase, SplitsAtEach,
}
use android_hardware_mainlin.Hwdb.Parser.{Entry, parse}
use android_hardware_mainlin.Hwdb.Lookup.{
  Properties, get_properties, get_property, match_and_collect,
}
use android_hardware_mainlin.Hwdb.Udev.{udev_sanitize}
use android_hardware_mainlin.Hwdb.Merge.{parse_nothing}
use android_hardware_mainlin.Hwdb.Precedence.{
  or_else, or_else_assoc, or_else-none, get_property_merged,
}
use android_hardware_mainlin.Sensors.SensorHwdb.{
  HwdbFiles, SensorHwdb, merge_files, emplace, emplace_all, lookup_matches, lookup_sensor,
  build_match_strings,
}

lookup-emplace :
    (key j value : Bytes) (result : Properties)
    → lookup j (emplace key value result)
      ≡ or_else (lookup j result) (if bytes_eq key j then some value else none)
unfolding emplace
lookup-emplace key j value result =
    ground
      (arith, lookup-insert key j value result, bytes_eq_iff key j, or_else-none (lookup j result))

or_else-if :
    (c : Bool) (value : Bytes) (b : Option Bytes)
    → or_else (if c then some value else none) b ≡ (if c then some value else b)
or_else-if true value b = refl
or_else-if false value b = refl

lookup-emplace_all :
    (j : Bytes) (props result : Properties)
    → lookup j (emplace_all props result) ≡ or_else (lookup j result) (lookup j props)
unfolding emplace_all
lookup-emplace_all j [] result = sym (or_else-none _)
lookup-emplace_all j ((key, value) ∷ props) result =
    lookup-emplace_all j props (emplace key value result)
    ∙ ap (λ o. or_else o (lookup j props)) (lookup-emplace key j value result)
    ∙ or_else_assoc (lookup j result) _ _
    ∙ ap (or_else (lookup j result)) (or_else-if (bytes_eq key j) value (lookup j props))

module _ (matches : Bytes → Bytes → Bool) where
  -- Each query in turn, and a default if none has the key.
  abbrev pub first_match : List Entry → List Bytes → Bytes → Option Bytes
  first_match entries [] key = none
  first_match entries (m ∷ ms) key =
      or_else (lookup key (get_properties matches entries m)) (first_match entries ms key)

  -- The value that the last of the contents gives, over a default.
  abbrev pub last_content : AndroidBase → HwdbFiles → List Bytes → Bytes → Bytes → Bytes → Bytes
  last_content base fs [] query key default_value = default_value
  last_content base fs (path ∷ paths) query key default_value =
      last_content base fs paths query key (elim (fs.read_file path) [
        | none ↦ default_value
        | some content ↦ get_property matches (parse base content) query key default_value
      ])

  get_property-nothing :
      (base : AndroidBase)
      → SplitsAtEach base
      → (query key default_value : Bytes)
      → get_property matches (parse base []) query key default_value ≡ default_value
  unfolding get_property get_properties match_and_collect
  get_property-nothing base splits query key default_value = rw (parse_nothing base splits) refl

  -- If Split cuts at each delimiter: in the merged files, a later file overrides the earlier ones
  -- key by key, and a file that cannot be read or has no value leaves the value as it was.
  pub merge_files-order :
      (base : AndroidBase) (fs : HwdbFiles)
      → SplitsAtEach base
      → (paths : List Bytes) (query key default_value : Bytes)
      → get_property matches (parse base (merge_files fs paths)) query key default_value
        ≡ last_content base fs paths query key default_value
  unfolding merge_files
  merge_files-order base fs splits [] query key default_value =
      get_property-nothing base splits query key default_value
  merge_files-order base fs splits (path ∷ paths) query key default_value =
      elim (Option-cases (fs.read_file path)) [
        | inl unreadable ↦
            rw (unreadable, merge_files, last_content)
              (merge_files-order base fs splits paths query key default_value)
        | inr (content, readable) ↦
            rw (readable, merge_files, last_content)
              (get_property_merged matches base splits content (merge_files fs paths) query key
                  default_value
                ∙ merge_files-order base fs splits paths query key _)
      ]

  lookup-lookup_matches :
      (key : Bytes) (ms : List Bytes) (h : SensorHwdb) (result : Properties)
      → lookup key (lookup_matches matches ms h result)
        ≡ or_else (lookup key result) (first_match h.hwdb ms key)
  unfolding lookup_matches
  lookup-lookup_matches key [] h result = sym (or_else-none _)
  lookup-lookup_matches key (m ∷ ms) h result =
      lookup-lookup_matches key ms h _
      ∙ ap (λ o. or_else o (first_match h.hwdb ms key))
          (lookup-emplace_all key (get_properties matches h.hwdb m) result)
      ∙ or_else_assoc (lookup key result) _ _

  -- What the hwdb has for the sensor with this label, if there is a label.
  abbrev pub of_label : Bytes → Bytes → Bytes → SensorHwdb → Option Bytes
  of_label key modalias label h =
      if is_empty label
      then none
      else lookup key (
          get_properties matches h.hwdb (
            codes "sensor:"
            ++ udev_sanitize label
            ++ codes ":modalias:"
            ++ udev_sanitize modalias
            ++ codes ":"
            ++ h.dmi_modalias))

  -- What it has for each sensor of the device.
  abbrev pub of_modalias : Bytes → Bytes → SensorHwdb → Option Bytes
  of_modalias key modalias h = lookup key (
      get_properties matches h.hwdb
        (codes "sensor:modalias:" ++ udev_sanitize modalias ++ codes ":" ++ h.dmi_modalias))

  first_match-build_match_strings :
      (key modalias label : Bytes) (h : SensorHwdb)
      → first_match h.hwdb (build_match_strings modalias label h) key ≡ (
          if is_empty modalias
          then none
          else or_else (of_label key modalias label h) (of_modalias key modalias h))
  unfolding build_match_strings
  first_match-build_match_strings key modalias label h = elim (Bool-cases (is_empty modalias)) [
    | inl unnamed ↦ rw unnamed refl
    | inr named ↦ rw named (elim (Bool-cases (is_empty label)) [
      | inl plain ↦ rw plain (or_else-none (of_modalias key modalias h))
      | inr labelled ↦ rw labelled (ap (or_else _) (or_else-none (of_modalias key modalias h)))
    ])
  ]

  -- Lookup gives each key the value that the hwdb has for "sensor:<label>:modalias:<modalias>:<dmi>",
  -- if there is a label and it has one, and else the value for "sensor:modalias:<modalias>:<dmi>", the
  -- label and the modalias sanitized. Without a modalias it gives nothing.
  pub lookup_sensor-first :
      (key modalias label : Bytes) (h : SensorHwdb)
      → lookup key (lookup_sensor matches modalias label h) ≡ (
          if is_empty modalias
          then none
          else or_else (of_label key modalias label h) (of_modalias key modalias h))
  unfolding lookup_sensor
  lookup_sensor-first key modalias label h =
      lookup-lookup_matches key (build_match_strings modalias label h) h []
      ∙ first_match-build_match_strings key modalias label h
