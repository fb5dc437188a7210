-- ===== src/Sensors/SensorHwdb.antt =====
-- interfaces/sensors/mainline/utils/hwdb/SensorHwdb.cpp: the sensor quirks of the hwdb files. The
-- file system, fnmatch(3), libbase and the SMBIOS parser are parameters.
use android_hardware_mainlin.Prelude.{
  ℕ, zero, suc, ◌+◌, ◌-◌, ◌*◌, ◌/◌, ◌%◌, ◌^◌, ◌≤◌, ◌<◌, bit_and, bit_or, String, ◌≡◌, refl, sym, ap,
  subst, ◌∙◌, ap₂, subst₂, ◌≢◌, ◌↔◌, ◌⊎◌, inl, inr, Bool, true, false, not, ◌&&◌, ◌||◌, Option,
  none, some, List, [], ◌∷◌, ◌++◌, map, append-nil, append_assoc, arith, ltb, leb, ◌==◌,
  if◌then◌else◌, ==_iff, ==_refl, Bool-cases, Option-cases, is_some, get_or_else, length,
  length-append, get_elem?, is_empty, any_of, find_if, All, All-append, All-mono, ℤ, pos, negsuc,
  pos_part, neg_part, sub_ℕ, ◌+ℤ◌, ◌-ℤ◌, ◌*ℤ◌, ◌≤ℤ◌, ◌<ℤ◌, ltb_ℤ, ◌==ℤ◌, ==ℤ_iff, min_ℤ, Bytes,
  codes, bytes_eq, bytes_eq_iff, Key, nat_key, bytes_key, lookup, insert, erase, lookup-insert,
  lookup-erase, contains, AndroidBase, SplitsAtEach, ◌>>=◌, ◌>>◌, guard, bit_and-mask, bit_and-flag,
  bit_or-high_low, bit_or-low_high, pow-pos, two_pow-suc, two_pow-add, mod_unique, sort_by,
  IsSortedBy, IsOrder, sort_by-perm, sort_by-IsSortedBy, All-sort_by, OnSome, OnSome-mono, Holds,
  >>=-Holds, guard-Holds, Holds-some, OnSome-some, mul_ℤ, max_ℤ, insert_sorted,
  any_of-insert_sorted, any_of-sort_by, if_holds,
}
pub mod MatchOrder
use android_hardware_mainlin.Hwdb.Parser.{Entry, newline, parse}
use android_hardware_mainlin.Hwdb.Udev.{udev_sanitize}
use android_hardware_mainlin.Hwdb.Lookup.{Properties, get_properties}
use android_hardware_mainlin.Sensors.DmiModalias.{SmbiosEntry, build_dmi_modalias}

-- What the functions read; `read_string` is sysfs::ReadString(path, "").
pub record HwdbFiles : Type 0 where
  pub list_directory : Bytes → List Bytes
  pub exists : Bytes → Bool
  pub read_file : Bytes → Option Bytes
  pub read_string : Bytes → Bytes
  pub smbios : Bytes → Option (List SmbiosEntry)

pub record SensorHwdb : Type 0 where
  pub hwdb : List Entry
  pub dmi_modalias : Bytes

abbrev pub hwdb_dirs : List Bytes
hwdb_dirs = codes "/vendor/etc/sensors/hwdb.d" ∷ codes "/odm/etc/sensors/hwdb.d" ∷ []

abbrev pub legacy_hwdb_files : List Bytes
legacy_hwdb_files =
    codes "/vendor/etc/hwdb.d/60-sensor.hwdb" ∷ codes "/odm/etc/hwdb.d/60-sensor.hwdb" ∷ []

abbrev pub filter_paths : (Bytes → Bool) → (Bytes → Bytes) → List Bytes → List Bytes
filter_paths p f [] = []
filter_paths p f (x ∷ xs) = let rest = filter_paths p f xs in if p x then f x ∷ rest else rest

unfoldable pub files_of_dirs : AndroidBase → HwdbFiles → List Bytes → List Bytes
files_of_dirs base fs [] = []
files_of_dirs base fs (dir ∷ dirs) =
    filter_paths (λ entry. base.ends_with entry (codes ".hwdb"))
      (λ entry. dir ++ codes "/" ++ entry) (fs.list_directory dir)
    ++ files_of_dirs base fs dirs

unfoldable pub find_hwdb_files : AndroidBase → HwdbFiles → List Bytes
unfolding files_of_dirs
find_hwdb_files base fs =
    files_of_dirs base fs hwdb_dirs ++ filter_paths fs.exists (λ path. path) legacy_hwdb_files

-- The contents of the files that can be read, each followed by "\n\n".
unfoldable pub merge_files : HwdbFiles → List Bytes → Bytes
merge_files fs [] = []
merge_files fs (path ∷ paths) =
    let rest = merge_files fs paths in
    elim (fs.read_file path) [ none ↦ rest | some content ↦ content ++ newline ∷ newline ∷ rest ]

unfoldable pub read_dmi_modalias : HwdbFiles → Bytes
read_dmi_modalias fs =
    let modalias = fs.read_string (codes "/sys/class/dmi/id/modalias") in
    if not (is_empty modalias)
    then modalias
    else if not (fs.exists (codes "/sys/firmware/dmi/tables/DMI"))
    then []
    else build_dmi_modalias fs.smbios
        (fs.read_file (codes "/sys/firmware/dmi/tables/smbios_entry_point"))
        (fs.read_file (codes "/sys/firmware/dmi/tables/DMI"))

unfoldable pub load_files : AndroidBase → HwdbFiles → List Bytes → Option SensorHwdb
unfolding merge_files read_dmi_modalias
load_files base fs paths =
    if is_empty (merge_files fs paths)
    then none
    else some (record {
      hwdb = parse base (merge_files fs paths);
      dmi_modalias = udev_sanitize (read_dmi_modalias fs);
    })

unfoldable pub load : AndroidBase → HwdbFiles → Option SensorHwdb
unfolding find_hwdb_files load_files
load base fs =
    if is_empty (find_hwdb_files base fs)
    then none
    else load_files base fs (find_hwdb_files base fs)

unfoldable pub build_match_strings : Bytes → Bytes → SensorHwdb → List Bytes
build_match_strings modalias label h =
    if is_empty modalias
    then []
    else (if is_empty label
        then []
        else (codes "sensor:"
            ++ udev_sanitize label
            ++ codes ":modalias:"
            ++ udev_sanitize modalias
            ++ codes ":"
            ++ h.dmi_modalias)
          ∷ [])
      ++ (codes "sensor:modalias:" ++ udev_sanitize modalias ++ codes ":" ++ h.dmi_modalias) ∷ []

-- std::map::emplace: a key that is there keeps its value.
unfoldable pub emplace : Bytes → Bytes → Properties → Properties
emplace key value result = if is_some (lookup key result) then result else insert key value result

unfoldable pub emplace_all : Properties → Properties → Properties
unfolding emplace
emplace_all [] result = result
emplace_all ((key, value) ∷ props) result = emplace_all props (emplace key value result)

module _ (matches : Bytes → Bytes → Bool) where
  unfoldable pub lookup_matches : List Bytes → SensorHwdb → Properties → Properties
  unfolding emplace_all
  lookup_matches [] h result = result
  lookup_matches (match ∷ ms) h result =
      lookup_matches ms h (emplace_all (get_properties matches h.hwdb match) result)

  unfoldable pub lookup_sensor : Bytes → Bytes → SensorHwdb → Properties
  unfolding lookup_matches build_match_strings
  lookup_sensor modalias label h = lookup_matches (build_match_strings modalias label h) h []

  unfoldable pub get_mount_matrix : Bytes → Bytes → SensorHwdb → Option Bytes
  unfolding lookup_sensor
  get_mount_matrix modalias label h =
      lookup (codes "ACCEL_MOUNT_MATRIX") (lookup_sensor modalias label h)

  unfoldable pub get_proximity_near_level : AndroidBase → Bytes → Bytes → SensorHwdb → Option ℤ
  unfolding lookup_sensor
  get_proximity_near_level base modalias label h =
      elim (lookup (codes "PROXIMITY_NEAR_LEVEL") (lookup_sensor modalias label h)) [
        | none ↦ none
        | some text ↦ base.parse_int text
      ]
