-- ===== src/Sensors/Settings.antt =====
-- interfaces/sensors/mainline/utils/common/Settings.cpp: the settings of the sensors HAL. The file
-- system and the Android properties are a parameter; log messages and line numbers are left out.
use android_hardware_mainlin.Prelude.{
  ℕ, zero, suc, ◌+◌, ◌-◌, ◌*◌, ◌/◌, ◌%◌, ◌^◌, ◌≤◌, ◌<◌, bit_and, bit_or, String, ◌≡◌, refl, sym, ap,
  subst, ◌∙◌, ap₂, subst₂, ◌≢◌, ◌↔◌, ◌⊎◌, inl, inr, Bool, true, false, not, ◌&&◌, ◌||◌, Option,
  none, some, List, [], ◌∷◌, ◌++◌, map, append-nil, append_assoc, arith, ltb, leb, ◌==◌,
  if◌then◌else◌, ==_iff, ==_refl, Bool-cases, Option-cases, is_some, get_or_else, length,
  length-append, get_elem?, is_empty, any_of, find_if, All, All-append, All-mono, ℤ, pos, negsuc,
  pos_part, neg_part, sub_ℕ, ◌+ℤ◌, ◌-ℤ◌, ◌*ℤ◌, ◌≤ℤ◌, ◌<ℤ◌, ltb_ℤ, ◌==ℤ◌, ==ℤ_iff, min_ℤ, Bytes,
  codes, bytes_eq, bytes_eq_iff, Key, nat_key, bytes_key, lookup, insert, erase, lookup-insert,
  lookup-erase, contains, AndroidBase, SplitsAtEach,
}
pub mod Files
pub mod Values
use android_hardware_mainlin.Hwdb.Parser.{cut_at, equals_sign, hash}

-- sysfs::ListDirectory, ReadFileToString and GetProperty(key, "").
pub record Environment : Type 0 where
  pub list_directory : Bytes → List Bytes
  pub read_file : Bytes → Option Bytes
  pub get_android_property : Bytes → Bytes

pub record Settings : Type 0 where
  pub file_values : List (Bytes × Bytes)
  pub loaded_files : List Bytes

-- The variables of the loop of LoadFile.
pub record Loading : Type 0 where
  pub section : Bytes
  pub values : List (Bytes × Bytes)

abbrev pub config_dirs : List Bytes
config_dirs = codes "/vendor/etc/sensors" ∷ codes "/odm/etc/sensors" ∷ []

abbrev pub property_prefix : Bytes
property_prefix = codes "vendor.sensors."

abbrev pub semicolon : ℕ
semicolon = 59

abbrev pub last_byte : ℕ → Bytes → ℕ
last_byte b [] = b
last_byte b (c ∷ cs) = last_byte c cs

-- All but the last byte.
abbrev pub without_last : Bytes → Bytes
without_last [] = []
without_last (b ∷ bs) = let rest = without_last bs in if is_empty bs then [] else b ∷ rest

abbrev pub with_section : Bytes → Bytes → Bytes
with_section section key = if is_empty section then key else section ++ codes "." ++ key

-- A line after trimming.
unfoldable pub load_assignment : AndroidBase → Bytes → Loading → Loading
load_assignment base line l = elim (cut_at equals_sign line) [
  | none ↦ l
  | some (key, value) ↦ if is_empty (base.trim key) then l else record l {
    values = insert (with_section l.section (base.trim key)) (base.trim value) l.values;
  }
]

unfoldable pub load_trimmed : AndroidBase → Bytes → Loading → Loading
unfolding load_assignment
load_trimmed base [] l = l
load_trimmed base (b ∷ bs) l =
    if (b == hash) || (b == semicolon)
    then l
    else if (b == 91) && (last_byte b bs == 93)
    then record l { section = base.trim (without_last bs) }
    else load_assignment base (b ∷ bs) l

unfoldable pub load_lines : AndroidBase → List Bytes → Loading → Loading
unfolding load_trimmed
load_lines base [] l = l
load_lines base (raw_line ∷ lines) l =
    load_lines base lines (load_trimmed base (base.trim raw_line) l)

unfoldable pub load_content : AndroidBase → Bytes → List (Bytes × Bytes) → List (Bytes × Bytes)
unfolding load_lines
load_content base content values =
    (load_lines base (base.split content 10) (record { section = []; values = values })).values

unfoldable pub load_file : AndroidBase → Environment → Bytes → Settings → Settings
unfolding load_content
load_file base env path s = elim (env.read_file path) [
  | none ↦ s
  | some content ↦ record {
    file_values = load_content base content s.file_values;
    loaded_files = s.loaded_files ++ path ∷ [];
  }
]

unfoldable pub load_entries : AndroidBase → Environment → Bytes → List Bytes → Settings → Settings
unfolding load_file
load_entries base env dir [] s = s
load_entries base env dir (entry ∷ entries) s = load_entries base env dir entries (
    if base.ends_with entry (codes ".conf")
    then load_file base env (dir ++ codes "/" ++ entry) s
    else s)

unfoldable pub load_dirs : AndroidBase → Environment → List Bytes → Settings → Settings
unfolding load_entries
load_dirs base env [] s = s
load_dirs base env (dir ∷ dirs) s =
    load_dirs base env dirs (load_entries base env dir (env.list_directory dir) s)

-- Reload, which the constructor calls.
unfoldable pub reload : AndroidBase → Environment → Settings
unfolding load_dirs
reload base env = load_dirs base env config_dirs (record { file_values = []; loaded_files = [] })

unfoldable pub get_from_files : Bytes → Settings → Option Bytes
get_from_files key s = lookup key s.file_values

unfoldable pub get_string : Environment → Settings → Bytes → Option Bytes
unfolding get_from_files
get_string env s key =
    let property = env.get_android_property (property_prefix ++ key) in
    if is_empty property then get_from_files key s else some property

unfoldable pub get_string_or : Environment → Settings → Bytes → Bytes → Bytes
unfolding get_string
get_string_or env s key default_value = get_or_else (get_string env s key) default_value

-- GetBool, GetInt and GetDouble: `parse` is ParseBoolValue, ParseIntValue or ParseDoubleValue.
unfoldable pub get_parsed {ℓ} :
    {A : Type ℓ} → (Bytes → Option A) → Environment → Settings → Bytes → Option A
unfolding get_string
get_parsed parse env s key = elim (get_string env s key) [ none ↦ none | some value ↦ parse value ]

unfoldable pub get_bool : AndroidBase → Environment → Settings → Bytes → Option Bool
unfolding get_parsed
get_bool base env s key = get_parsed base.parse_bool env s key

unfoldable pub get_int : AndroidBase → Environment → Settings → Bytes → Option ℤ
unfolding get_parsed
get_int base env s key = get_parsed base.parse_int env s key

unfoldable pub get_double : AndroidBase → Environment → Settings → Bytes → Option ℕ
unfolding get_parsed
get_double base env s key = get_parsed base.parse_double env s key

-- GetFirstString, GetFirstBool, GetFirstInt and GetFirstDouble: the same loop over `get`.
unfoldable pub get_first {ℓ} : {A : Type ℓ} → (Bytes → Option A) → List Bytes → Option A
get_first get [] = none
get_first get (key ∷ keys) =
    let rest = get_first get keys in elim (get key) [ none ↦ rest | some value ↦ some value ]

abbrev pub between : ℕ → ℕ → ℕ → Bool
between low high c = leb low c && leb c high

unfoldable pub is_key_char : ℕ → Bool
is_key_char c = between 97 122 c || between 65 90 c || between 48 57 c || (c == 95)

unfoldable pub sanitize_key_component : Bytes → Bytes
unfolding is_key_char
sanitize_key_component component = map (λ c. if is_key_char c then c else 95) component
