-- ===== src/Sensors/Manager/Discovery.antt =====
-- SensorManager.cpp: InitializeBackends, ShutdownBackends and the discovery loop of Initialize. The
-- clock is a parameter: `timed_out k` says whether the deadline has passed at attempt k.
use android_hardware_mainlin.Prelude.{
  ℕ, zero, suc, Bool, true, false, not, ◌||◌, Option, none, some, List, [], ◌∷◌, if◌then◌else◌,
  length, ℤ, pos, ltb_ℤ, ◌==ℤ◌, nat_key, bytes_key,
}
use android_hardware_mainlin.Sensors.Manager.State.{
  Backends, BackendEntry, CompositeMethods, Manager, Call, call,
}
use android_hardware_mainlin.Sensors.Manager.Requests.{deactivate_all}
use android_hardware_mainlin.Sensors.Manager.Registration.{register_hardware_sensors}
use android_hardware_mainlin.Sensors.Manager.Composites.{register_composites}

module _ {S : Type 0} (env : Backends) where
  -- One backend: one that fails is shut down again, so that a later attempt starts clean.
  initialize_backend : ℕ → BackendEntry → Manager S → BackendEntry × Manager S
  initialize_backend i entry m =
      let (ret, m') = call env (Call.initialize i) m in
      if entry.initialized
      then (entry, m)
      else (if ret ==ℤ pos 0
          then (record entry { initialized = true }, m')
          else (entry, (call env (Call.deinitialize i) m').1))

  unfoldable pub initialize_each : ℕ → List BackendEntry → Manager S → List BackendEntry × Manager S
  unfolding initialize_backend
  initialize_each i [] m = ([], m)
  initialize_each i (entry ∷ entries) m =
      let (entry', m') = initialize_backend i entry m in
      let (entries', m'') = initialize_each (suc i) entries m' in (entry' ∷ entries', m'')

  unfoldable pub initialize_backends : Manager S → Manager S
  initialize_backends m =
      let (entries, m') = initialize_each 0 m.backends m in record m' { backends = entries }

  unfoldable pub shutdown_each : ℕ → List BackendEntry → Manager S → List BackendEntry × Manager S
  shutdown_each i [] m = ([], m)
  shutdown_each i (entry ∷ entries) m =
      let m' = if entry.initialized then (call env (Call.deinitialize i) m).1 else m in
      let (entries', m'') = shutdown_each (suc i) entries m' in
      (
        (if entry.initialized
              then record entry { initialized = false; local_to_global = [] }
              else entry)
            ∷ entries',
        m'',
      )

  unfoldable pub shutdown_backends : Manager S → Manager S
  shutdown_backends m =
      let (entries, m') = shutdown_each 0 m.backends m in
      record m' { backends = entries; hardware = []; next_handle = 1 }

  -- One attempt of the loop, up to the tests.
  unfoldable pub attempt : Manager S → Manager S
  attempt m = register_hardware_sensors env (initialize_backends m)

  unfoldable pub is_complete : ℤ → Manager S → Bool
  is_complete expected m =
      not (ltb_ℤ (pos 0) expected) || not (ltb_ℤ (pos (length m.hardware)) expected)

  -- The loop, on fuel: `none` means that the fuel ran out.
  unfoldable pub discover : ℤ → (ℕ → Bool) → ℕ → ℕ → Manager S → Option (Manager S)
  discover expected timed_out zero k m = none
  discover expected timed_out (suc fuel) k m =
      let found = attempt m in
      let retried = discover expected timed_out fuel (suc k) (shutdown_backends found) in
      if is_complete expected found || timed_out k then some found else retried

  -- Initialize, after the backends are loaded.
  unfoldable pub initialize_manager :
      CompositeMethods S → ℤ → (ℕ → Bool) → ℕ → Manager S → Option (Manager S)
  initialize_manager methods expected timed_out fuel m =
      if m.initialized
      then some m
      else elim (discover expected timed_out fuel 1 (record m { initialized = true })) [
        | none ↦ none
        | some found ↦ some (register_composites methods found)
      ]

  -- The destructor: everything is stopped, then the backends that are initialized are shut down.
  unfoldable pub destroy : CompositeMethods S → Manager S → Manager S
  destroy methods m =
      let stopped = deactivate_all methods env m in
      let (entries, m') = shutdown_each 0 stopped.backends stopped in
      record m' { backends = []; hardware = []; composites = []; has_sink = false }
