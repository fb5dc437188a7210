-- ===== src/Sensors/BackendLoader.antt =====
-- interfaces/sensors/mainline/BackendLoader.cpp: which libraries are loaded, and from where. The
-- dynamic linker and the functions of a library are a parameter; a handle is a number, as is the
-- instance that CreateBackend returns.
use android_hardware_mainlin.Prelude.{
  ℕ, zero, suc, ◌+◌, ◌-◌, ◌*◌, ◌/◌, ◌%◌, ◌^◌, ◌≤◌, ◌<◌, bit_and, bit_or, String, ◌≡◌, refl, sym, ap,
  subst, ◌∙◌, ap₂, subst₂, ◌≢◌, ◌↔◌, ◌⊎◌, inl, inr, Bool, true, false, not, ◌&&◌, ◌||◌, Option,
  none, some, List, [], ◌∷◌, ◌++◌, map, append-nil, append_assoc, arith, ltb, leb, ◌==◌,
  if◌then◌else◌, ==_iff, ==_refl, Bool-cases, Option-cases, is_some, get_or_else, length,
  length-append, get_elem?, is_empty, any_of, find_if, All, All-append, All-mono, ℤ, pos, negsuc,
  pos_part, neg_part, sub_ℕ, ◌+ℤ◌, ◌-ℤ◌, ◌*ℤ◌, ◌≤ℤ◌, ◌<ℤ◌, ltb_ℤ, ◌==ℤ◌, ==ℤ_iff, min_ℤ, Bytes,
  codes, bytes_eq, bytes_eq_iff, Key, nat_key, bytes_key, lookup, insert, erase, lookup-insert,
  lookup-erase, contains, AndroidBase, SplitsAtEach, ◌>>=◌, ◌>>◌, guard, bit_and-mask, bit_and-flag,
  bit_or-high_low, bit_or-low_high, pow-pos, two_pow-suc, two_pow-add, mod_unique, sort_by,
  IsSortedBy, IsOrder, sort_by-perm, sort_by-IsSortedBy, All-sort_by, OnSome, OnSome-mono, Holds,
  >>=-Holds, guard-Holds, Holds-some, OnSome-some, mul_ℤ, max_ℤ, insert_sorted,
  any_of-insert_sorted, any_of-sort_by, if_holds,
}
pub mod Resolve
use android_hardware_mainlin.Sensors.Settings.{Environment, Settings, get_string_or}

-- What dlopen gives for a path, and what the library exports: `none` is a null pointer.
pub record Linker : Type 0 where
  pub dlopen : Bytes → Option ℕ
  pub interface_version : ℕ → Option ℕ
  pub backend_flags : ℕ → Option ℕ
  pub create_backend : ℕ → Option (Option ℕ)

pub record LoadedBackend : Type 0 where
  pub library : Bytes
  pub path : Bytes
  pub backend : ℕ
  pub flags : ℕ
  pub dl_handle : Option ℕ

-- dlopen, or dlclose of a handle, newest first.
pub data LinkerCall : Type 0 where
  opened : Bytes → Option ℕ → LinkerCall
  closed : ℕ → LinkerCall

abbrev pub slash : ℕ
slash = 47

abbrev pub has_byte : ℕ → Bytes → Bool
has_byte b [] = false
has_byte b (c ∷ cs) = (c == b) || has_byte b cs

unfoldable pub expand_name : AndroidBase → Bytes → Bytes
expand_name base name =
    if has_byte slash name || base.ends_with name (codes ".so")
    then name
    else if base.starts_with name (codes "libsensors_ext_")
    then name ++ codes ".so"
    else codes "libsensors_ext_" ++ name ++ codes ".so"

abbrev pub default_backends : List Bytes
default_backends = codes "iio" ∷ codes "input" ∷ codes "mock" ∷ []

-- The directories of a 64-bit build.
abbrev pub search_dirs : List Bytes
search_dirs =
    codes "/odm/lib64/hw/"
    ∷ codes "/vendor/lib64/hw/"
    ∷ codes "/odm/lib64/"
    ∷ codes "/vendor/lib64/"
    ∷ []

unfoldable pub expand_tokens : AndroidBase → List Bytes → List Bytes
unfolding expand_name
expand_tokens base [] = []
expand_tokens base (token ∷ tokens) =
    let rest = expand_tokens base tokens in
    if is_empty (base.trim token) then rest else expand_name base (base.trim token) ∷ rest

-- `custom` is LOAD_CUSTOM_BACKENDS of the build.
unfoldable pub configured_list : Environment → Settings → Bytes → Bytes
configured_list env s custom =
    let list = get_string_or env s (codes "backends") [] in if is_empty list then custom else list

unfoldable pub resolve_backend_list : AndroidBase → Environment → Settings → Bytes → List Bytes
unfolding configured_list expand_tokens expand_name
resolve_backend_list base env s custom =
    let list = configured_list env s custom in
    let libraries = if is_empty list then [] else expand_tokens base (base.split list 44) in
    if is_empty libraries then map (expand_name base) default_backends else libraries

unfoldable pub candidates : Bytes → List Bytes
candidates library =
    if has_byte slash library
    then library ∷ []
    else library ∷ map (λ dir. dir ++ library) search_dirs

-- The loop over the candidates stops at the first that opens.
unfoldable pub open_first :
    Linker → List Bytes → List LinkerCall → Option (Bytes × ℕ) × List LinkerCall
open_first ld [] log = (none, log)
open_first ld (candidate ∷ cs) log =
    let rest = open_first ld cs (opened candidate none ∷ log) in
    elim (ld.dlopen candidate) [
      | none ↦ rest
      | some handle ↦ (some (candidate, handle), opened candidate (some handle) ∷ log)
    ]

-- kSensorBackendInterfaceVersion is an argument. Where there is no result, the destructor of the
-- LoadedBackend closes the library again.
unfoldable pub check_backend :
    ℕ → Linker → Bytes → Bytes → ℕ → List LinkerCall → Option LoadedBackend × List LinkerCall
check_backend version ld library path handle log =
    if not (get_or_else (ld.interface_version handle) 1 == version)
    then (none, closed handle ∷ log)
    else elim (get_or_else (ld.create_backend handle) none) [
      | none ↦ (none, closed handle ∷ log)
      | some backend ↦ (
        some (record {
          library = library;
          path = path;
          backend = backend;
          flags = get_or_else (ld.backend_flags handle) 0;
          dl_handle = some handle;
        }),
        log,
      )
    ]

unfoldable pub load_backend :
    ℕ → Linker → Bytes → List LinkerCall → Option LoadedBackend × List LinkerCall
unfolding open_first candidates check_backend
load_backend version ld library log =
    let (found, log') = open_first ld (candidates library) log in
    elim found [
      | none ↦ (none, log')
      | some (path, handle) ↦ check_backend version ld library path handle log'
    ]

-- The move constructor: what is moved from keeps no handle. The strings that it leaves are not read.
unfoldable pub move_backend : LoadedBackend → LoadedBackend × LoadedBackend
move_backend other = (other, record other { dl_handle = none })

-- ~LoadedBackend.
unfoldable pub destroy_backend : LoadedBackend → List LinkerCall → List LinkerCall
destroy_backend b log = elim b.dl_handle [ none ↦ log | some handle ↦ closed handle ∷ log ]

-- Move assignment to another object: what the object held is closed first.
unfoldable pub assign_backend :
    LoadedBackend
    → LoadedBackend
    → List LinkerCall
    → (LoadedBackend × LoadedBackend) × List LinkerCall
unfolding destroy_backend move_backend
assign_backend target other log = (move_backend other, destroy_backend target log)

-- `loaded` is moved to the vector, and what is left of it destroyed.
unfoldable pub load_backends :
    ℕ → Linker → List Bytes → List LinkerCall → List LoadedBackend × List LinkerCall
unfolding load_backend move_backend destroy_backend
load_backends version ld [] log = ([], log)
load_backends version ld (library ∷ libraries) log =
    let (loaded, log') = load_backend version ld library log in
    elim loaded [
      | none ↦ load_backends version ld libraries log'
      | some b ↦
          let (kept, left) = move_backend b in
          let (backends, log'') = load_backends version ld libraries (destroy_backend left log') in
          (kept ∷ backends, log'')
    ]

-- The vector is destroyed in order.
unfoldable pub unload_backends : List LoadedBackend → List LinkerCall → List LinkerCall
unfolding destroy_backend
unload_backends [] log = log
unload_backends (b ∷ bs) log = unload_backends bs (destroy_backend b log)
