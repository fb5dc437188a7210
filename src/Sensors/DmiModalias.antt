-- ===== src/Sensors/DmiModalias.antt =====
-- interfaces/sensors/mainline/utils/hwdb/DmiModalias.cpp: the DMI modalias of the SMBIOS tables. The
-- SMBIOS parser, a vendored library, is a parameter, which gives the entries of a buffer or nothing.
use android_hardware_mainlin.Prelude.{
  ℕ, zero, suc, ◌+◌, ◌-◌, ◌*◌, ◌/◌, ◌%◌, ◌^◌, ◌≤◌, ◌<◌, bit_and, bit_or, String, ◌≡◌, refl, sym, ap,
  subst, ◌∙◌, ap₂, subst₂, ◌≢◌, ◌↔◌, ◌⊎◌, inl, inr, Bool, true, false, not, ◌&&◌, ◌||◌, Option,
  none, some, List, [], ◌∷◌, ◌++◌, map, append-nil, append_assoc, arith, ltb, leb, ◌==◌,
  if◌then◌else◌, ==_iff, ==_refl, Bool-cases, Option-cases, is_some, get_or_else, length,
  length-append, get_elem?, is_empty, any_of, find_if, All, All-append, All-mono, ℤ, pos, negsuc,
  pos_part, neg_part, sub_ℕ, ◌+ℤ◌, ◌-ℤ◌, ◌*ℤ◌, ◌≤ℤ◌, ◌<ℤ◌, ltb_ℤ, ◌==ℤ◌, ==ℤ_iff, min_ℤ, Bytes,
  codes, bytes_eq, bytes_eq_iff, Key, nat_key, bytes_key, lookup, insert, erase, lookup-insert,
  lookup-erase, contains, AndroidBase, SplitsAtEach,
}
pub mod Text
pub mod Printable

-- The strings of an entry are C strings: a null pointer, or the bytes before the NUL.
pub data SmbiosEntry : Type 0 where
  bios_info :
      (size : ℕ) (vendor version date : Option Bytes) (major minor ec_major ec_minor : ℕ)
      → SmbiosEntry
  system_info : (size : ℕ) (manufacturer product version sku family : Option Bytes) → SmbiosEntry
  baseboard_info : (manufacturer product version : Option Bytes) → SmbiosEntry
  system_enclosure : (manufacturer : Option Bytes) (type : ℕ) (version : Option Bytes) → SmbiosEntry
  other_entry : SmbiosEntry

pub record DmiFields : Type 0 where
  pub bios_vendor : Bytes
  pub bios_version : Bytes
  pub bios_date : Bytes
  pub bios_release : Bytes
  pub ec_release : Bytes
  pub sys_vendor : Bytes
  pub product_name : Bytes
  pub product_version : Bytes
  pub product_sku : Bytes
  pub product_family : Bytes
  pub board_vendor : Bytes
  pub board_name : Bytes
  pub board_version : Bytes
  pub chassis_vendor : Bytes
  pub chassis_version : Bytes
  pub chassis_type : ℤ

abbrev pub no_fields : DmiFields
no_fields = record {
  bios_vendor = [];
  bios_version = [];
  bios_date = [];
  bios_release = [];
  ec_release = [];
  sys_vendor = [];
  product_name = [];
  product_version = [];
  product_sku = [];
  product_family = [];
  board_vendor = [];
  board_name = [];
  board_version = [];
  chassis_vendor = [];
  chassis_version = [];
  chassis_type = negsuc 0;
}

abbrev pub colon : ℕ
colon = 58

-- Printable ASCII but the colon and the space. A byte from 128 on fails both as a negative char and as
-- an unsigned one.
unfoldable pub is_kept : ℕ → Bool
is_kept c = ltb 32 c && ltb c 127 && not (c == colon)

unfoldable pub filtered : Bytes → Bytes
filtered [] = []
filtered (c ∷ cs) = let rest = filtered cs in if is_kept c then c ∷ rest else rest

unfoldable pub append_filtered : Bytes → String → Option Bytes → Bytes
unfolding filtered
append_filtered out prefix none = out
append_filtered out prefix (some []) = out
append_filtered out prefix (some (c ∷ cs)) =
    out ++ codes prefix ++ filtered (c ∷ cs) ++ (colon ∷ [])

-- std::to_string of a uint8_t.
unfoldable pub decimal : ℕ → Bytes
decimal n =
    if ltb n 10
    then (48 + n) ∷ []
    else if ltb n 100
    then (48 + n / 10) ∷ (48 + n % 10) ∷ []
    else (48 + n / 100 % 10) ∷ (48 + n / 10 % 10) ∷ (48 + n % 10) ∷ []

unfoldable pub append_release : Bytes → String → ℕ → ℕ → Bytes
unfolding decimal
append_release out prefix major minor =
    if (major == 255) && (minor == 255)
    then out
    else out ++ codes prefix ++ decimal major ++ (46 ∷ []) ++ decimal minor ++ (colon ∷ [])

-- The body of the loop over the entries.
unfoldable pub read_entry : SmbiosEntry → DmiFields → DmiFields
unfolding append_filtered append_release
read_entry (bios_info size vendor version date major minor ec_major ec_minor) f = record f {
  bios_vendor = append_filtered f.bios_vendor "bvn" vendor;
  bios_version = append_filtered f.bios_version "bvr" version;
  bios_date = append_filtered f.bios_date "bd" date;
  bios_release =
      if leb 21 size then append_release f.bios_release "br" major minor else f.bios_release;
  ec_release =
      if leb 23 size then append_release f.ec_release "efr" ec_major ec_minor else f.ec_release;
}
read_entry (system_info size manufacturer product version sku family) f = record f {
  sys_vendor = append_filtered f.sys_vendor "svn" manufacturer;
  product_name = append_filtered f.product_name "pn" product;
  product_version = append_filtered f.product_version "pvr" version;
  product_sku = if ltb 25 size then append_filtered f.product_sku "sku" sku else f.product_sku;
  product_family =
      if ltb 26 size then append_filtered f.product_family "pfa" family else f.product_family;
}
read_entry (baseboard_info manufacturer product version) f = record f {
  board_vendor = append_filtered f.board_vendor "rvn" manufacturer;
  board_name = append_filtered f.board_name "rn" product;
  board_version = append_filtered f.board_version "rvr" version;
}
read_entry (system_enclosure manufacturer type version) f = record f {
  chassis_vendor = append_filtered f.chassis_vendor "cvn" manufacturer;
  chassis_type = pos (type % 128);
  chassis_version = append_filtered f.chassis_version "cvr" version;
}
read_entry other_entry f = f

unfoldable pub read_entries : List SmbiosEntry → DmiFields → DmiFields
unfolding read_entry
read_entries [] f = f
read_entries (entry ∷ entries) f = read_entries entries (read_entry entry f)

abbrev pub chassis_text : ℤ → Bytes
chassis_text (pos n) = codes "ct" ++ decimal n ++ (colon ∷ [])
chassis_text (negsuc n) = []

unfoldable pub assemble : DmiFields → Bytes
assemble f =
    codes "dmi:"
    ++ f.bios_vendor
    ++ f.bios_version
    ++ f.bios_date
    ++ f.bios_release
    ++ f.ec_release
    ++ f.sys_vendor
    ++ f.product_name
    ++ f.product_version
    ++ f.board_vendor
    ++ f.board_name
    ++ f.board_version
    ++ f.chassis_vendor
    ++ chassis_text f.chassis_type
    ++ f.chassis_version
    ++ f.product_sku
    ++ f.product_family

-- The first n bytes, then zeros up to n.
abbrev pub padded : ℕ → Bytes → Bytes
padded zero bs = []
padded (suc n) [] = 0 ∷ padded n []
padded (suc n) (b ∷ bs) = b ∷ padded n bs

-- The two files, "/sys/firmware/dmi/tables/smbios_entry_point" and ".../DMI", if they can be read.
unfoldable pub read_raw_tables : Option Bytes → Option Bytes → Option Bytes
read_raw_tables none table = none
read_raw_tables (some entry_point) none = none
read_raw_tables (some entry_point) (some table) =
    if is_empty entry_point || is_empty table then none else some (padded 32 entry_point ++ table)

unfoldable pub build_from_entries : Option (List SmbiosEntry) → Bytes
unfolding read_entries assemble
build_from_entries none = []
build_from_entries (some entries) = assemble (read_entries entries no_fields)

-- BuildDmiModaliasFromSmbios.
unfoldable pub build_dmi_modalias :
    (Bytes → Option (List SmbiosEntry)) → Option Bytes → Option Bytes → Bytes
unfolding read_raw_tables build_from_entries
build_dmi_modalias smbios entry_point table = elim (read_raw_tables entry_point table) [
  | none ↦ []
  | some buffer ↦ build_from_entries (smbios buffer)
]
