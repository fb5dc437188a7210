-- ===== src/Sensors/Service.antt =====
-- interfaces/sensors/mainline/Sensors.cpp: the AIDL calls over the manager and the dispatcher. The
-- sink that hands the manager's events to PostEvents is in the log `delivered` of the manager.
use android_hardware_mainlin.Prelude.{
  ℕ, zero, suc, ◌+◌, ◌-◌, ◌*◌, ◌/◌, ◌%◌, ◌^◌, ◌≤◌, ◌<◌, bit_and, bit_or, String, ◌≡◌, refl, sym, ap,
  subst, ◌∙◌, ap₂, subst₂, ◌≢◌, ◌↔◌, ◌⊎◌, inl, inr, Bool, true, false, not, ◌&&◌, ◌||◌, Option,
  none, some, List, [], ◌∷◌, ◌++◌, map, append-nil, append_assoc, arith, ltb, leb, ◌==◌,
  if◌then◌else◌, ==_iff, ==_refl, Bool-cases, Option-cases, is_some, get_or_else, length,
  length-append, get_elem?, is_empty, any_of, find_if, All, All-append, All-mono, ℤ, pos, negsuc,
  pos_part, neg_part, sub_ℕ, ◌+ℤ◌, ◌-ℤ◌, ◌*ℤ◌, ◌≤ℤ◌, ◌<ℤ◌, ltb_ℤ, ◌==ℤ◌, ==ℤ_iff, min_ℤ, Bytes,
  codes, bytes_eq, bytes_eq_iff, Key, nat_key, bytes_key, lookup, insert, erase, lookup-insert,
  lookup-erase, contains, AndroidBase, SplitsAtEach,
}
pub mod Reinitialize
use android_hardware_mainlin.Sensors.SensorTypes.Modes.{FlagBits}
use android_hardware_mainlin.Sensors.Events.{Event}
use android_hardware_mainlin.Sensors.EventDispatcher.{Dispatcher, Descriptors, Answers, usable}
use android_hardware_mainlin.Sensors.EventDispatcher as dispatcher
use android_hardware_mainlin.Sensors.Manager.State.{
  Backends, CompositeMethods, Manager, OperationMode, einval, enotsup,
}
use android_hardware_mainlin.Sensors.Manager.Requests.{
  activate, batch, flush, inject_event, set_operation_mode, deactivate_all,
}

-- The binder statuses that the service returns.
pub data Status : Type 0 where
  ok : Status
  illegal_argument : Status
  unsupported_operation : Status
  bad_value : Status

unfoldable pub status_from_errno : ℤ → Status
status_from_errno result =
    if result ==ℤ pos 0
    then ok
    else if result ==ℤ einval
    then illegal_argument
    else if result ==ℤ enotsup
    then unsupported_operation
    else bad_value

abbrev pub is_failure : ℤ → Bool
is_failure ret = not (ret ==ℤ pos 0) && not (ret ==ℤ einval)

unfoldable pub activate_status : ℤ → Status
unfolding status_from_errno
activate_status ret = if is_failure ret then illegal_argument else status_from_errno ret

unfoldable pub batch_status : ℤ → Status
unfolding status_from_errno
batch_status ret = if is_failure ret then ok else status_from_errno ret

unfoldable pub inject_status : ℤ → Status
inject_status ret =
    if ret ==ℤ pos 0 then ok else if ret ==ℤ enotsup then unsupported_operation else bad_value

pub record Service (S : Type 0) : Type 0 where
  pub manager : Manager S
  pub event_dispatcher : Dispatcher
  pub has_callback : Bool

module _ {S : Type 0} (env : Backends) (methods : CompositeMethods S) (b : FlagBits) where
  unfoldable pub activate_sensor : ℕ → Bool → Service S → Status × Service S
  unfolding activate_status
  activate_sensor handle enabled s =
      let (ret, m) = activate methods env handle enabled s.manager in
      (activate_status ret, record s { manager = m })

  unfoldable pub batch_sensor : ℕ → ℤ → ℤ → Service S → Status × Service S
  unfolding batch_status
  batch_sensor handle period latency s =
      let (ret, m) = batch env handle period latency s.manager in
      (batch_status ret, record s { manager = m })

  unfoldable pub flush_sensor : ℕ → Service S → Status × Service S
  unfolding status_from_errno
  flush_sensor handle s =
      let (ret, m) = flush env b handle s.manager in
      (status_from_errno ret, record s { manager = m })

  unfoldable pub inject_sensor_data : Event → Service S → Status × Service S
  unfolding inject_status
  inject_sensor_data event s =
      let (ret, m) = inject_event b event s.manager in (inject_status ret, record s { manager = m })

  unfoldable pub set_mode : OperationMode → Service S → Status × Service S
  unfolding status_from_errno
  set_mode mode s =
      let (ret, m) = set_operation_mode env b mode s.manager in
      (status_from_errno ret, record s { manager = m })

  -- initialize: the requests are closed first, whatever else fails.
  unfoldable pub initialize_service : Descriptors → Answers → Bool → Service S → Status × Service S
  initialize_service desc ans callback s =
      let closed = record s {
        manager = deactivate_all methods env s.manager;
        has_callback = callback;
      } in
      if not callback then (illegal_argument, closed) else (
        if usable desc then ok else illegal_argument,
        record closed { event_dispatcher = dispatcher.initialize desc ans s.event_dispatcher },
      )
