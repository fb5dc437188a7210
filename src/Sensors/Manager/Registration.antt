-- ===== src/Sensors/Manager/Registration.antt =====
-- SensorManager.cpp: RegisterHardwareSensors and RegisterComposites.
use android_hardware_mainlin.Prelude.{
  ℕ, suc, ◌≡◌, ◌↔◌, Bool, true, false, ◌&&◌, ◌||◌, List, [], ◌∷◌, ◌++◌, arith, if◌then◌else◌,
  is_some, is_empty, ℤ, pos, negsuc, Bytes, codes, bytes_eq, bytes_eq_iff, Key, nat_key, bytes_key,
  lookup, insert, contains,
}
use android_hardware_mainlin.Sensors.SensorType.{
  SensorType, same_type, same_type_iff, sensor_type_key, meta_data, additional_info,
}
use android_hardware_mainlin.Sensors.SensorTypes.Traits.{SensorInfo}
use android_hardware_mainlin.Sensors.SensorTypes.Clamp.{clamp_sampling_period_ns}
use android_hardware_mainlin.Sensors.Manager.State.{Backends, BackendEntry, HardwareSensor, Manager}

abbrev pub default_period_ns : ℤ
default_period_ns = pos 66666667

-- The keys of used_names.
abbrev TypedName : Type 0
TypedName = SensorType × Bytes

abbrev same_name : TypedName → TypedName → Bool
same_name (t, n) (u, k) = same_type t u && bytes_eq n k

pub same_name_iff : (a b : TypedName) → (same_name a b ≡ true) ↔ (a ≡ b)
same_name_iff (t, n) (u, k) = ground (arith, same_type_iff t u, bytes_eq_iff n k)

instance abbrev pub typed_name_key : Key TypedName
typed_name_key = record { beq = same_name; beq_iff = same_name_iff }

-- What the loop over the sensors of one backend has registered so far.
pub record Progress : Type 0 where
  pub hardware : List (ℕ × HardwareSensor)
  pub next_handle : ℕ
  pub used_names : List TypedName
  pub backend_types : List SensorType
  pub local_to_global : List (ℕ × ℕ)

abbrev pub is_invalid : SensorInfo → Bool
is_invalid info =
    same_type info.type meta_data || same_type info.type additional_info || is_empty info.name

-- "name (backend)"
abbrev pub renamed : Bytes → Bytes → Bytes
renamed name backend_name = name ++ codes " (" ++ backend_name ++ codes ")"

-- The vendor and the name under which a sensor is registered, and its global handle.
unfoldable pub adopt_info : Bytes → Progress → SensorInfo → SensorInfo
adopt_info backend_name p info = record info {
  vendor = if is_empty info.vendor then backend_name else info.vendor;
  name =
      if contains (info.type, info.name) p.used_names
      then renamed info.name backend_name
      else info.name;
}

unfoldable pub new_sensor : ℕ → ℕ → SensorInfo → HardwareSensor
new_sensor handle i info = record {
  handle = handle;
  backend_index = i;
  local_handle = info.sensor_handle;
  info = record info { sensor_handle = handle };
  client_active = false;
  client_period_ns = clamp_sampling_period_ns info default_period_ns;
  client_latency_ns = pos 0;
  composite_periods = [];
  backend_active = false;
  backend_period_ns = negsuc 0;
  backend_latency_ns = negsuc 0;
  composite_subscribers = [];
}

unfoldable pub add_sensor : ℕ → SensorInfo → Progress → Progress
unfolding new_sensor
add_sensor i info p = record {
  hardware = insert p.next_handle (new_sensor p.next_handle i info) p.hardware;
  next_handle = suc p.next_handle;
  used_names = (info.type, info.name) ∷ p.used_names;
  backend_types = info.type ∷ p.backend_types;
  local_to_global = insert info.sensor_handle p.next_handle p.local_to_global;
}

-- The body of the loop: the three reasons to skip a sensor come first.
unfoldable pub register_sensor :
    ℕ → Bytes → Bool → List SensorType → SensorInfo → Progress → Progress
unfolding add_sensor adopt_info
register_sensor i backend_name fallback_only provided info p =
    if fallback_only && contains info.type provided
    then p
    else (if is_some (lookup info.sensor_handle p.local_to_global)
        then p
        else (if is_invalid info then p else add_sensor i (adopt_info backend_name p info) p))

unfoldable pub register_list :
    ℕ → Bytes → Bool → List SensorType → List SensorInfo → Progress → Progress
register_list i backend_name fallback_only provided [] p = p
register_list i backend_name fallback_only provided (info ∷ infos) p =
    register_list i backend_name fallback_only provided infos
      (register_sensor i backend_name fallback_only provided info p)

-- The loop over the backends: the sensors, the next handle, the names, the types and the entries.
pub record Registered : Type 0 where
  pub hardware : List (ℕ × HardwareSensor)
  pub next_handle : ℕ
  pub used_names : List TypedName
  pub provided_types : List SensorType
  pub entries : List BackendEntry

abbrev pub start_backend : Registered → Progress
start_backend r = record {
  hardware = r.hardware;
  next_handle = r.next_handle;
  used_names = r.used_names;
  backend_types = [];
  local_to_global = [];
}

abbrev pub end_backend : BackendEntry → Progress → Registered → Registered
end_backend entry p r = record {
  hardware = p.hardware;
  next_handle = p.next_handle;
  used_names = p.used_names;
  provided_types = p.backend_types ++ r.provided_types;
  entries = r.entries ++ record entry { local_to_global = p.local_to_global } ∷ [];
}

-- One round: a backend that is not initialized keeps an empty table and adds nothing.
unfoldable pub register_entry : ℕ → Bytes → List SensorInfo → BackendEntry → Registered → Registered
register_entry i name infos entry r =
    let p = register_list i name entry.fallback_only r.provided_types infos (start_backend r) in
    if entry.initialized
    then end_backend entry p r
    else record r { entries = r.entries ++ record entry { local_to_global = [] } ∷ [] }

unfoldable pub register_entries :
    (ℕ → Bytes) → (ℕ → List SensorInfo) → ℕ → List BackendEntry → Registered → Registered
register_entries names infos i [] r = r
register_entries names infos i (entry ∷ entries) r =
    register_entries names infos (suc i) entries (register_entry i (names i) (infos i) entry r)

abbrev pub none_registered : Registered
none_registered = record {
  hardware = [];
  next_handle = 1;
  used_names = [];
  provided_types = [];
  entries = [];
}

module _ {S : Type 0} where
  unfoldable pub register_hardware_sensors : Backends → Manager S → Manager S
  register_hardware_sensors env m =
      let r =
        register_entries env.get_name (env.sensors_list m.calls) 0 m.backends none_registered in
      record m { hardware = r.hardware; next_handle = r.next_handle; backends = r.entries }
