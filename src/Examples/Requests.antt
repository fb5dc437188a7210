-- ===== src/Examples/Requests.antt =====
-- The theorems about the sensor manager and the service at a manager with one sensor.
use android_hardware_mainlin.Prelude.{
  ℕ, ◌≡◌, refl, sym, subst, ◌∙◌, inl, inr, Bool, true, false, ◌&&◌, some, List, [], ◌∷◌, arith, leb,
  ◌==◌, ==_iff, Bool-cases, pos, negsuc, ◌==ℤ◌, codes, nat_key, bytes_key, lookup,
}
use android_hardware_mainlin.Sensors.EventDispatcher.{new_dispatcher}
use android_hardware_mainlin.Sensors.Manager.State.{
  Backends, HardwareSensor, CompositeMethods, Manager, normal,
}
use android_hardware_mainlin.Sensors.Manager.Protocol.{Sensors, Holds, Tracks}
use android_hardware_mainlin.Sensors.Manager.Step.{
  Request, activates, batches, posts, deactivates_all, run, run-Holds,
}
use android_hardware_mainlin.Sensors.Manager.Requests.{activate}
use android_hardware_mainlin.Sensors.Manager.State.{find_composite, find_hardware}
use android_hardware_mainlin.Sensors.Manager.Registration.{register_hardware_sensors}
use android_hardware_mainlin.Sensors.Manager.Routing.{
  IsConnected, register_hardware_sensors-IsConnected,
}
use android_hardware_mainlin.Sensors.Manager.Rollback.{HasClient, activate-HasClient}
use android_hardware_mainlin.Sensors.Service.{Service, initialize_service}
use android_hardware_mainlin.Sensors.Service.Reinitialize.{AllIdle, initialize_service-closes}
use android_hardware_mainlin.Examples.Library.{sample_bits}
use android_hardware_mainlin.Examples.Devices.{sample_info, sample_event, succeeds, good_queues}

abbrev sample_sensor : HardwareSensor
sample_sensor = record {
  handle = 1;
  backend_index = 0;
  local_handle = 5;
  info = record sample_info { sensor_handle = 1 };
  client_active = false;
  client_period_ns = pos 66666667;
  client_latency_ns = pos 0;
  composite_periods = [];
  backend_active = false;
  backend_period_ns = negsuc 0;
  backend_latency_ns = negsuc 0;
  composite_subscribers = [];
}

abbrev sample_manager : Manager Unit
sample_manager = record {
  backends =
      record { fallback_only = false; initialized = true; local_to_global = (5, 1) ∷ [] } ∷ [];
  hardware = (1, sample_sensor) ∷ [];
  composites = [];
  pending_composites = [];
  next_handle = 2;
  has_sink = true;
  mode = normal;
  initialized = true;
  calls = [];
  delivered = [];
}

abbrev sample_backends : Backends
sample_backends = record {
  respond = λ log c. pos 0;
  sensors_list = λ log i. sample_info ∷ [];
  get_name = λ i. codes "iio";
}

abbrev no_methods : CompositeMethods Unit
no_methods = record {
  get_input_sensor_types = λ s. [];
  get_input_sampling_period_ns = λ s. pos 1;
  on_activate = λ enabled s. s;
  process_event = λ c event. (tt, []);
}

abbrev sample_sensors : Sensors
sample_sensors = λ i l. record sample_info { sensor_handle = 1 }

only_sensor :
    (h : ℕ) (hw : HardwareSensor)
    → lookup h sample_manager.hardware ≡ some hw
    → (1 ≡ h) × (sample_sensor ≡ hw)
only_sensor h hw e = elim (Bool-cases (1 == h)) [
  | inl one ↦ ((==_iff 1 h).0 one, ground arith)
  | inr other ↦ absurd (ground arith)
]

sample_sensor-Tracks : Tracks sample_sensors [] sample_sensor
sample_sensor-Tracks = record {
  active = refl;
  info = refl;
  ordered = inr (omega arith);
  in_range = (λ l. omega arith, λ l. omega arith);
}

sample_manager-Holds : Holds sample_sensors sample_manager
sample_manager-Holds = record {
  inv = record {
    tracks = λ h hw e. subst (Tracks sample_sensors []) (only_sensor h hw e).1 sample_sensor-Tracks;
    distinct = λ h k x y e f i l. sym (only_sensor h x e).0 ∙ (only_sensor k y f).0;
    conforms = tt;
  };
}

abbrev sample_requests : List Request
sample_requests =
    batches 1 (pos 1) (pos 0)
    ∷ activates 1 true
    ∷ posts 0 (record (sample_event (pos 3)) { sensor_handle = 5 } ∷ []) false
    ∷ deactivates_all
    ∷ []

run-Holds_example :
    Holds sample_sensors (run sample_backends no_methods sample_bits sample_requests sample_manager)
run-Holds_example =
    run-Holds sample_backends no_methods sample_bits sample_sensors sample_requests sample_manager
      sample_manager-Holds

-- Two sensors are expected and one is there; the deadline passes at the third attempt.
abbrev late_at_three : ℕ → Bool
late_at_three k = leb 3 k

abbrev sample_service : Service Unit
sample_service = record {
  manager = record sample_manager {
    hardware = (1, record sample_sensor { client_active = true; backend_active = true }) ∷ [];
  };
  event_dispatcher = new_dispatcher;
  has_callback = true;
}

initialize_service-closes_example :
    AllIdle
      (initialize_service sample_backends no_methods sample_bits good_queues
        (succeeds 0)
        false
        sample_service).1.manager
initialize_service-closes_example =
    initialize_service-closes sample_backends no_methods sample_bits good_queues (succeeds 0) false
      sample_service

-- The backend refuses every activation.
abbrev refusing_backends : Backends
refusing_backends = record sample_backends { respond = λ log c. negsuc 4 }

activate-HasClient_example :
    let (ret, m') = activate no_methods refusing_backends 1 true sample_manager in
    HasClient 1 (true && (ret ==ℤ pos 0)) m'
unfolding find_composite find_hardware
activate-HasClient_example =
    activate-HasClient refusing_backends no_methods 1 true sample_sensor sample_manager refl refl

register_hardware_sensors-IsConnected_example :
    IsConnected (register_hardware_sensors sample_backends sample_manager)
register_hardware_sensors-IsConnected_example =
    register_hardware_sensors-IsConnected sample_backends sample_manager
