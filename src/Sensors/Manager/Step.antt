-- ===== src/Sensors/Manager/Step.antt =====
-- The requests that reach the manager as one step function, and the protocol over any run of them.
use android_hardware_mainlin.Prelude.{
  ℕ, ◌≡◌, refl, sym, ap, ◌∙◌, subst₂, inl, inr, Bool, false, some, List, [], ◌∷◌, arith, ◌==◌,
  Bool-cases, Option-cases, get_elem?, ℤ, pos, nat_key, bytes_key, lookup,
}
use android_hardware_mainlin.Sensors.SensorTypes.Modes.{FlagBits, is_wake_up_sensor}
use android_hardware_mainlin.Sensors.SensorTypes.Clamp.{InRange}
use android_hardware_mainlin.Sensors.Events.{Event}
use android_hardware_mainlin.Sensors.Manager.State.{
  Backends, HardwareSensor, CompositeMethods, CompositeEntry, Manager, OperationMode, find_hardware,
  find_composite, modify_composite,
}
use android_hardware_mainlin.Sensors.Manager.Apply.{bool_eq}
use android_hardware_mainlin.Sensors.Manager.Requests.{
  set_event_sink, set_operation_mode, batch, flush, set_period, set_periods, activate_composite,
  activate, clear_requests, drop_requests, running, deactivate_all, inject_event, inject_found,
}
use android_hardware_mainlin.Sensors.Manager.Delivery.{
  feed_one, Gathered, feed_composites, forward, take_event, gather_event, gather, on_backend_events,
}
use android_hardware_mainlin.Sensors.Manager.Protocol.{Sensors, Table, Inv, Holds, Inv-From}
use android_hardware_mainlin.Sensors.Manager.Preserved.{
  SameTable, SameTable-Holds, deliver-SameTable, write-Holds, apply_inputs-Holds,
  activate_hardware-Holds, batch-Holds, flush-Holds, set_operation_mode-Holds,
}

set_periods-Holds :
    {S : Type 0} (infos : Sensors) (c : ℕ) (enabled : Bool) (period : ℤ) (inputs : List ℕ)
    (m : Manager S)
    → Holds infos m
    → Holds infos (set_periods c enabled period inputs m)
unfolding set_periods set_period
set_periods-Holds infos c enabled period [] m v = v
set_periods-Holds infos c enabled period (input ∷ inputs) m v =
    set_periods-Holds infos c enabled period inputs _ (
      write-Holds infos input (set_period c enabled period) m
        (λ x. record { index = refl; local = refl; active = refl; info = refl }) (λ x. refl) v)

pub lookup-drop_requests :
    (h : ℕ) (l : Table) (y : HardwareSensor)
    → lookup h (drop_requests l) ≡ some y
    → (x : HardwareSensor) × (lookup h l ≡ some x) × (y ≡ clear_requests x)
unfolding drop_requests
lookup-drop_requests h [] y e = cc
lookup-drop_requests h ((j, hw) ∷ l) y e = elim (Bool-cases (j == h)) [
  | inl same ↦ (hw, rw same, ground arith)
  | inr other ↦ let (x, ex, ey) = lookup-drop_requests h l y (ground arith) in (x, rw other ex, ey)
]

module _ {S : Type 0} (methods : CompositeMethods S) (infos : Sensors) where
  activate_composite-Holds :
      (env : Backends) (c : CompositeEntry S) (enabled : Bool) (m : Manager S)
      → Holds infos m
      → Holds infos (activate_composite methods env c enabled m).1
  unfolding activate_composite modify_composite
  activate_composite-Holds env c enabled m v = elim (Bool-cases (bool_eq c.sensor.active enabled)) [
    | inl same ↦ rw same v
    | inr change ↦ rw change (
        apply_inputs-Holds env infos c.input_handles (pos 0) _
          (set_periods-Holds infos c.handle enabled _ c.input_handles _ (record { inv = v.inv })))
  ]

  activate-Holds :
      (env : Backends) (h : ℕ) (enabled : Bool) (m : Manager S)
      → Holds infos m
      → Holds infos (activate methods env h enabled m).1
  unfolding activate
  activate-Holds env h enabled m v = elim (Option-cases (find_composite h m)) [
    | inr (c, e) ↦ rw (e, activate) (activate_composite-Holds env c enabled m v)
    | inl none_there ↦
        rw (none_there, activate)
          (elim (Option-cases (find_hardware h m)) [
            | inl missing ↦ rw (missing, activate) v
            | inr (hw, e) ↦ rw (e, activate) (activate_hardware-Holds env infos h enabled hw m v)
          ])
  ]

  deactivate_all-Holds :
      (env : Backends) (m : Manager S) → Holds infos m → Holds infos (deactivate_all methods env m)
  unfolding deactivate_all
  deactivate_all-Holds env m v =
      apply_inputs-Holds env infos (running m.hardware) (pos 0) _ (record { inv = dropped })
    where
      dropped : Inv infos (drop_requests m.hardware) m.calls
      dropped =
          Inv-From infos m.hardware _ m.calls
            (λ h y e.
              let (x, ex, ey) = lookup-drop_requests h m.hardware y e in
              (
                x,
                ex,
                record {
                  index = ap (λ t. t.backend_index) ey;
                  local = ap (λ t. t.local_handle) ey;
                  active = ap (λ t. t.backend_active) ey;
                  info = ap (λ t. t.info) ey;
                },
                subst₂ InRange (sym (ap (λ t. t.info) ey)) (sym (ap (λ t. t.client_period_ns) ey))
                    (v.inv.tracks h x ex).in_range,
              ))
            v.inv

-- A request that a backend or the framework makes of the manager.
pub data Request : Type 0 where
  activates : ℕ → Bool → Request
  batches : ℕ → ℤ → ℤ → Request
  flushes : ℕ → Request
  sets_mode : OperationMode → Request
  injects : Event → Request
  deactivates_all : Request
  sets_sink : Bool → Request
  posts : ℕ → List Event → Bool → Request

module _ {S : Type 0} (env : Backends) (methods : CompositeMethods S) (b : FlagBits) where
  pub step : Request → Manager S → Manager S
  step (activates h enabled) m = (activate methods env h enabled m).1
  step (batches h period latency) m = (batch env h period latency m).1
  step (flushes h) m = (flush env b h m).1
  step (sets_mode mode) m = (set_operation_mode env b mode m).1
  step (injects event) m = (inject_event b event m).1
  step deactivates_all m = deactivate_all methods env m
  step (sets_sink present) m = set_event_sink present m
  step (posts i events wakeup) m = on_backend_events methods b i events wakeup m

  pub run : List Request → Manager S → Manager S
  run [] m = m
  run (r ∷ rs) m = run rs (step r m)

module _ {S : Type 0} (methods : CompositeMethods S) (b : FlagBits) where
  feed_one-SameTable :
      (h : ℕ) (event : Event) (g : Gathered S)
      → SameTable g.manager (feed_one methods b h event g).manager
  unfolding feed_one modify_composite
  feed_one-SameTable h event g = elim (Option-cases (find_composite h g.manager)) [
    | inl missing ↦ rw (missing, feed_one) (refl, refl)
    | inr (c, e) ↦
        rw (e, feed_one)
          (elim (Bool-cases c.sensor.active) [
            | inl on ↦ rw on (refl, refl)
            | inr off ↦ rw off (refl, refl)
          ])
  ]

  feed-SameTable :
      (hs : List ℕ) (event : Event) (g : Gathered S)
      → SameTable g.manager (feed_composites methods b hs event g).manager
  unfolding feed_composites
  feed-SameTable [] event g = (refl, refl)
  feed-SameTable (h ∷ hs) event g =
      let one = feed_one-SameTable h event g in
      let rest = feed-SameTable hs event (feed_one methods b h event g) in
      (rest.0 ∙ one.0, rest.1 ∙ one.1)

  take-SameTable :
      (wakeup : Bool) (hw : HardwareSensor) (event : Event) (g : Gathered S)
      → SameTable g.manager (take_event methods b wakeup hw event g).manager
  unfolding take_event forward
  take-SameTable wakeup hw event g = ground (arith, feed-SameTable hw.composite_subscribers event g)

  gather_event-SameTable :
      (mapping : List (ℕ × ℕ)) (wakeup : Bool) (event : Event) (g : Gathered S)
      → SameTable g.manager (gather_event methods b mapping wakeup event g).manager
  unfolding gather_event
  gather_event-SameTable mapping wakeup event g =
      elim (Option-cases (lookup event.sensor_handle mapping)) [
        | inl missing ↦ rw (missing, gather_event) (refl, refl)
        | inr (h, e) ↦
            rw (e, gather_event)
              (elim (Option-cases (find_hardware h g.manager)) [
                | inl missing ↦ rw (missing, gather_event) (refl, refl)
                | inr (hw, found) ↦ rw (found, gather_event) (take-SameTable wakeup hw _ g)
              ])
      ]

  gather-SameTable :
      (mapping : List (ℕ × ℕ)) (wakeup : Bool) (events : List Event) (g : Gathered S)
      → SameTable g.manager (gather methods b mapping wakeup events g).manager
  unfolding gather
  gather-SameTable mapping wakeup [] g = (refl, refl)
  gather-SameTable mapping wakeup (event ∷ events) g =
      let one = gather_event-SameTable mapping wakeup event g in
      let rest =
        gather-SameTable mapping wakeup events (gather_event methods b mapping wakeup event g) in
      (rest.0 ∙ one.0, rest.1 ∙ one.1)

  on_backend_events-SameTable :
      (i : ℕ) (events : List Event) (wakeup : Bool) (m : Manager S)
      → SameTable m (on_backend_events methods b i events wakeup m)
  unfolding on_backend_events
  on_backend_events-SameTable i events wakeup m = elim (Option-cases (get_elem? m.backends i)) [
    | inl missing ↦ rw (missing, on_backend_events) (refl, refl)
    | inr (entry, e) ↦
        let start : Gathered S = record { out = []; wake = false; manager = m } in
        let g = gather methods b entry.local_to_global wakeup events start in
        rw (e, on_backend_events)
          (ground (
            arith,
            gather-SameTable entry.local_to_global wakeup events start,
            deliver-SameTable g.out g.wake g.manager,
          ))
  ]

inject_event-SameTable :
    {S : Type 0} (b : FlagBits) (event : Event) (m : Manager S)
    → SameTable m (inject_event b event m).1
unfolding inject_event inject_found
inject_event-SameTable b event m = elim (Option-cases (find_hardware event.sensor_handle m)) [
  | inl missing ↦ rw (missing, inject_event) (ground arith)
  | inr (hw, e) ↦
      rw (e, inject_event)
        (ground (arith, deliver-SameTable (event ∷ []) (is_wake_up_sensor b hw.info.flags) m))
]

module _ {S : Type 0} (env : Backends) (methods : CompositeMethods S) (b : FlagBits)
    (infos : Sensors) where
  pub step-Holds :
      (r : Request) (m : Manager S) → Holds infos m → Holds infos (step env methods b r m)
  unfolding step
  step-Holds (activates h enabled) m v = activate-Holds methods infos env h enabled m v
  step-Holds (batches h period latency) m v = batch-Holds env infos h period latency m v
  step-Holds (flushes h) m v = flush-Holds env infos b h m v
  step-Holds (sets_mode mode) m v = set_operation_mode-Holds env infos b mode m v
  step-Holds (injects event) m v = SameTable-Holds infos m _ (inject_event-SameTable b event m) v
  step-Holds deactivates_all m v = deactivate_all-Holds methods infos env m v
  step-Holds (sets_sink present) m v = unfold set_event_sink in record { inv = v.inv }
  step-Holds (posts i events wakeup) m v =
      SameTable-Holds infos m _ (on_backend_events-SameTable methods b i events wakeup m) v

  -- From a state where the invariant holds, over any run of requests, whatever the backends
  -- answer: no backend is asked to activate a sensor that is active or to deactivate one that is
  -- not, every period it is given is within the limits of the sensor, and the manager's records
  -- agree with the log.
  pub run-Holds :
      (rs : List Request) (m : Manager S) → Holds infos m → Holds infos (run env methods b rs m)
  unfolding run
  run-Holds [] m v = v
  run-Holds (r ∷ rs) m v = run-Holds rs _ (step-Holds r m v)
