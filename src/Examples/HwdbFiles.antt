-- ===== src/Examples/HwdbFiles.antt =====
-- The hwdb, settings and DMI theorems at concrete files.
use android_hardware_mainlin.Prelude.{
  ◌≡◌, Bool, true, false, none, some, List, [], ◌∷◌, ◌++◌, if◌then◌else◌, get_or_else, is_empty,
  All, Bytes, codes, bytes_eq, nat_key, bytes_key, lookup,
}
use android_hardware_mainlin.Hwdb.Parser.{newline, parse}
use android_hardware_mainlin.Hwdb.Records.{IsRecord, parse-records}
use android_hardware_mainlin.Hwdb.Merge.{parse-append}
use android_hardware_mainlin.Hwdb.Lookup.{get_property}
use android_hardware_mainlin.Hwdb.Precedence.{last_value, get_property-last, get_property_merged}
use android_hardware_mainlin.Sensors.Settings.{
  Environment, property_prefix, config_dirs, reload, get_string,
}
use android_hardware_mainlin.Sensors.Settings.Files.{
  last_file_value, conf_paths, get_string-precedence,
}
use android_hardware_mainlin.Hwdb.Precedence.{or_else}
use android_hardware_mainlin.Sensors.DmiModalias.{system_enclosure, build_dmi_modalias}
use android_hardware_mainlin.Sensors.DmiModalias.Text.{IsPrintable}
use android_hardware_mainlin.Sensors.DmiModalias.Printable.{build_dmi_modalias-IsPrintable}
use android_hardware_mainlin.Sensors.SensorHwdb.{HwdbFiles, SensorHwdb, merge_files, lookup_sensor}
use android_hardware_mainlin.Sensors.SensorHwdb.MatchOrder.{
  last_content, of_label, of_modalias, merge_files-order, lookup_sensor-first,
}
use android_hardware_mainlin.Sensors.BackendLoader.{Linker, resolve_backend_list}
use android_hardware_mainlin.Sensors.BackendLoader.Resolve.{resolve_backend_list_lem}
use android_hardware_mainlin.Examples.Library.{sample_base, sample_base-SplitsAtEach}

-- Two files with one record each: "sensor:a\n K=1\n" and "sensor:a\n K=2\n".
abbrev first_file : Bytes
first_file = codes "sensor:a" ++ newline ∷ codes " K=1" ++ newline ∷ []

abbrev second_file : Bytes
second_file = codes "sensor:a" ++ newline ∷ codes " K=2" ++ newline ∷ []

-- A pattern matches the equal string.
abbrev same : Bytes → Bytes → Bool
same = bytes_eq

parse-records_example : All IsRecord (parse sample_base first_file)
parse-records_example = parse-records sample_base first_file

parse-append_example :
    parse sample_base (first_file ++ newline ∷ newline ∷ second_file)
    ≡ parse sample_base first_file ++ parse sample_base second_file
parse-append_example = parse-append sample_base sample_base-SplitsAtEach first_file second_file

get_property-last_example :
    get_property same (parse sample_base first_file) (codes "sensor:a") (codes "K") []
    ≡ get_or_else (last_value same (codes "sensor:a") (codes "K") (parse sample_base first_file)) []
get_property-last_example =
    get_property-last same sample_base first_file (codes "sensor:a") (codes "K") []

get_property_merged_example :
    get_property same
      (parse sample_base (first_file ++ newline ∷ newline ∷ second_file))
      (codes "sensor:a")
      (codes "K")
      []
    ≡ get_property same
        (parse sample_base second_file)
        (codes "sensor:a")
        (codes "K")
        (get_property same (parse sample_base first_file) (codes "sensor:a") (codes "K") [])
get_property_merged_example =
    get_property_merged same sample_base sample_base-SplitsAtEach first_file second_file
      (codes "sensor:a") (codes "K") []

abbrev sample_files : HwdbFiles
sample_files = record {
  list_directory = λ dir. [];
  exists = λ path. true;
  read_file = λ path.
      if bytes_eq path (codes "a")
      then some first_file
      else if bytes_eq path (codes "b")
      then some second_file
      else none;
  read_string = λ path. [];
  smbios = λ buffer. some (system_enclosure (some (codes "Acme Inc:")) 131 none ∷ []);
}

abbrev sample_paths : List Bytes
sample_paths = codes "a" ∷ codes "missing" ∷ codes "b" ∷ []

merge_files-order_example :
    get_property same
      (parse sample_base (merge_files sample_files sample_paths))
      (codes "sensor:a")
      (codes "K")
      []
    ≡ last_content same sample_base sample_files sample_paths (codes "sensor:a") (codes "K") []
merge_files-order_example =
    merge_files-order same sample_base sample_files sample_base-SplitsAtEach sample_paths
      (codes "sensor:a") (codes "K") []

abbrev sample_hwdb : SensorHwdb
sample_hwdb = record { hwdb = parse sample_base first_file; dmi_modalias = [] }

lookup_sensor-first_example :
    lookup (codes "K") (lookup_sensor same (codes "a") (codes "accel") sample_hwdb)
    ≡ or_else
        (of_label same (codes "K") (codes "a") (codes "accel") sample_hwdb)
        (of_modalias same (codes "K") (codes "a") sample_hwdb)
lookup_sensor-first_example =
    lookup_sensor-first same (codes "K") (codes "a") (codes "accel") sample_hwdb

-- One directory has a file "x.conf" that sets a key.
abbrev sample_environment : Environment
sample_environment = record {
  list_directory =
      λ dir. if bytes_eq dir (codes "/odm/etc/sensors") then codes "x.conf" ∷ [] else [];
  read_file = λ path. some (codes "[iio]" ++ 10 ∷ codes "power = 1");
  get_android_property = λ name. [];
}

get_string-precedence_example :
    get_string sample_environment (reload sample_base sample_environment) (codes "iio.power") ≡ (
      if is_empty (sample_environment.get_android_property (property_prefix ++ codes "iio.power"))
      then last_file_value sample_base sample_environment
          (codes "iio.power")
          (conf_paths sample_base sample_environment config_dirs)
      else some (sample_environment.get_android_property (property_prefix ++ codes "iio.power")))
get_string-precedence_example =
    get_string-precedence sample_base sample_environment (codes "iio.power")

build_dmi_modalias-IsPrintable_example :
    IsPrintable
      (build_dmi_modalias sample_files.smbios (some (codes "_SM_")) (some (codes "table")))
build_dmi_modalias-IsPrintable_example =
    build_dmi_modalias-IsPrintable sample_files.smbios (some (codes "_SM_")) (some (codes "table"))

-- Two libraries open; the second has another interface version.
abbrev sample_linker : Linker
sample_linker = record {
  dlopen = λ path.
      if bytes_eq path (codes "/vendor/lib64/hw/one.so")
      then some 1
      else if bytes_eq path (codes "two.so")
      then some 2
      else none;
  interface_version = λ handle. some handle;
  backend_flags = λ handle. none;
  create_backend = λ handle. some (some 9);
}

resolve_backend_list_lem_example :
    is_empty (
      resolve_backend_list sample_base sample_environment
        (reload sample_base sample_environment)
        (codes " , "))
    ≡ false
resolve_backend_list_lem_example =
    resolve_backend_list_lem sample_base sample_environment (reload sample_base sample_environment)
      (codes " , ")
