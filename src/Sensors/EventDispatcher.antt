-- ===== src/Sensors/EventDispatcher.antt =====
-- interfaces/sensors/mainline/EventDispatcher.cpp: the event queue and the wake lock protocol. Each
-- method is one step; Initialize and Shutdown take write_mutex_ and then wake_lock_mutex_, one after the
-- other. What the message queues, the wake lock and the clock answer is an argument (Answers), and the
-- calls of the wake lock are logged.
use android_hardware_mainlin.Prelude.{
  ℕ, zero, suc, ◌+◌, ◌-◌, ◌*◌, ◌/◌, ◌%◌, ◌^◌, ◌≤◌, ◌<◌, bit_and, bit_or, String, ◌≡◌, refl, sym, ap,
  subst, ◌∙◌, ap₂, subst₂, ◌≢◌, ◌↔◌, ◌⊎◌, inl, inr, Bool, true, false, not, ◌&&◌, ◌||◌, Option,
  none, some, List, [], ◌∷◌, ◌++◌, map, append-nil, append_assoc, arith, ltb, leb, ◌==◌,
  if◌then◌else◌, ==_iff, ==_refl, Bool-cases, Option-cases, is_some, get_or_else, length,
  length-append, get_elem?, is_empty, any_of, find_if, All, All-append, All-mono, ℤ, pos, negsuc,
  pos_part, neg_part, sub_ℕ, ◌+ℤ◌, ◌-ℤ◌, ◌*ℤ◌, ◌≤ℤ◌, ◌<ℤ◌, ltb_ℤ, ◌==ℤ◌, ==ℤ_iff, min_ℤ, Bytes,
  codes, bytes_eq, bytes_eq_iff, Key, nat_key, bytes_key, lookup, insert, erase, lookup-insert,
  lookup-erase, contains, AndroidBase, SplitsAtEach,
}
pub mod Traces
pub mod WakeLock
use android_hardware_mainlin.Sensors.Events.{Event}

-- acquire_wake_lock or release_wake_lock, with whether it returned what the caller takes as success.
pub data LockCall : Type 0 where
  acquire : Bool → LockCall
  release : Bool → LockCall

pub record Answers : Type 0 where
  pub acquired : Bool
  pub released : Bool
  pub accepted : Bool
  pub now : ℕ

pub record Descriptors : Type 0 where
  pub event_queue_valid : Bool
  pub wake_lock_queue_valid : Bool
  pub flag_created : Bool

-- A pointer is kept as whether it is set. `written` and `lock_calls` are newest first. Times are in
-- nanoseconds.
pub record Dispatcher : Type 0 where
  pub event_queue : Bool
  pub wake_lock_queue : Bool
  pub event_queue_flag : Bool
  pub outstanding_wake_up_events : ℕ
  pub has_wake_lock : Bool
  pub auto_release_time : ℕ
  pub wake_lock_thread_run : Bool
  pub dropped_events : ℕ
  pub written : List (List Event)
  pub lock_calls : List LockCall

abbrev pub new_dispatcher : Dispatcher
new_dispatcher = record {
  event_queue = false;
  wake_lock_queue = false;
  event_queue_flag = false;
  outstanding_wake_up_events = 0;
  has_wake_lock = false;
  auto_release_time = 0;
  wake_lock_thread_run = false;
  dropped_events = 0;
  written = [];
  lock_calls = [];
}

-- static_cast<int32_t> of a size.
unfoldable pub to_int32 : ℕ → ℤ
to_int32 n = if ltb (n % 2 ^ 32) (2 ^ 31) then pos (n % 2 ^ 32) else sub_ℕ (n % 2 ^ 32) (2 ^ 32)

-- updated < 0 ? 0 : static_cast<uint32_t>(updated).
unfoldable pub outstanding_after : ℕ → ℤ → ℤ → ℕ
outstanding_after outstanding events_written events_handled =
    pos_part (pos outstanding +ℤ events_written -ℤ events_handled) % 2 ^ 32

unfoldable pub count_events : ℕ → ℕ → ℤ → ℤ → Dispatcher → Dispatcher
unfolding outstanding_after
count_events timeout now events_written events_handled d = record d {
  outstanding_wake_up_events =
      outstanding_after d.outstanding_wake_up_events events_written events_handled;
  auto_release_time = if ltb_ℤ (pos 0) events_written then now + timeout else d.auto_release_time;
}

unfoldable pub try_acquire : Bool → Dispatcher → Dispatcher
try_acquire ok d = record d { has_wake_lock = ok; lock_calls = acquire ok ∷ d.lock_calls }

unfoldable pub try_release : Bool → Dispatcher → Dispatcher
try_release ok d = record d { has_wake_lock = not ok; lock_calls = release ok ∷ d.lock_calls }

-- The branch for a lock that is held.
unfoldable pub expire : ℕ → Dispatcher → Dispatcher
expire now d =
    if ltb d.auto_release_time now then record d { outstanding_wake_up_events = 0 } else d

unfoldable pub keep_or_release : Answers → Dispatcher → Dispatcher
unfolding try_release
keep_or_release ans d = if d.outstanding_wake_up_events == 0 then try_release ans.released d else d

unfoldable pub settle_wake_lock : Answers → Dispatcher → Dispatcher
unfolding try_acquire expire keep_or_release
settle_wake_lock ans d =
    if not d.has_wake_lock && ltb 0 d.outstanding_wake_up_events
    then try_acquire ans.acquired d
    else if d.has_wake_lock
    then keep_or_release ans (expire ans.now d)
    else d

-- UpdateWakeLock; `timeout` is ISensors::WAKE_LOCK_TIMEOUT_SECONDS.
unfoldable pub update_wake_lock : ℕ → Answers → ℤ → ℤ → Dispatcher → Dispatcher
unfolding count_events settle_wake_lock
update_wake_lock timeout ans events_written events_handled d =
    settle_wake_lock ans (count_events timeout ans.now events_written events_handled d)

-- What Initialize and Shutdown do to the wake lock, whatever release_wake_lock returns.
unfoldable pub drop_wake_lock : Bool → Dispatcher → Dispatcher
drop_wake_lock released d =
    if d.has_wake_lock
    then record d {
      outstanding_wake_up_events = 0;
      has_wake_lock = false;
      lock_calls = release released ∷ d.lock_calls;
    }
    else record d { outstanding_wake_up_events = 0 }

unfoldable pub stop_wake_lock_thread : Dispatcher → Dispatcher
stop_wake_lock_thread d = record d { wake_lock_thread_run = false }

unfoldable pub set_queues : Bool → Dispatcher → Dispatcher
set_queues ok d = record d { event_queue = ok; wake_lock_queue = ok; event_queue_flag = ok }

unfoldable pub usable : Descriptors → Bool
usable desc = desc.event_queue_valid && desc.wake_lock_queue_valid && desc.flag_created

unfoldable pub initialize : Descriptors → Answers → Dispatcher → Dispatcher
unfolding drop_wake_lock stop_wake_lock_thread set_queues usable
initialize desc ans d =
    record (drop_wake_lock ans.released (set_queues (usable desc) (stop_wake_lock_thread d))) {
      wake_lock_thread_run = usable desc;
    }

unfoldable pub shutdown : Answers → Dispatcher → Dispatcher
unfolding drop_wake_lock stop_wake_lock_thread set_queues
shutdown ans d = drop_wake_lock ans.released (set_queues false (stop_wake_lock_thread d))

unfoldable pub write_events : ℕ → Answers → List Event → Bool → Dispatcher → Dispatcher
unfolding update_wake_lock to_int32
write_events timeout ans events wakeup d =
    let written = record d { written = events ∷ d.written } in
    if wakeup
    then update_wake_lock timeout ans (to_int32 (length events)) (pos 0) written
    else written

-- The counter of dropped events is 64 bits wide.
unfoldable pub post_events : ℕ → Answers → List Event → Bool → Dispatcher → Dispatcher
unfolding write_events
post_events timeout ans events wakeup d =
    if is_empty events || not d.event_queue || not d.event_queue_flag
    then d
    else if ans.accepted
    then write_events timeout ans events wakeup d
    else record d { dropped_events = (d.dropped_events + length events) % 2 ^ 64 }

-- One turn of the loop of WakeLockThread: `events_handled` is what the framework wrote, 0 on a
-- timeout of the read.
unfoldable pub wake_lock_thread : ℕ → Answers → ℤ → Dispatcher → Dispatcher
unfolding update_wake_lock
wake_lock_thread timeout ans events_handled d =
    if d.wake_lock_thread_run then update_wake_lock timeout ans (pos 0) events_handled d else d
