-- ===== src/Sensors/EventDispatcher/Traces.antt =====
-- The methods of EventDispatcher.cpp in any order, with any answers.
use android_hardware_mainlin.Prelude.{
  ℕ, ◌+◌, ◌%◌, ◌^◌, ◌<◌, ◌≡◌, refl, ◌∙◌, Bool, true, false, not, List, [], ◌∷◌, arith,
  if◌then◌else◌, length, ℤ, pos, nat_key, bytes_key,
}
use android_hardware_mainlin.Sensors.Events.{Event}
use android_hardware_mainlin.Sensors.EventDispatcher.{
  Dispatcher, Descriptors, Answers, LockCall, acquire, release, count_events, settle_wake_lock,
  expire, keep_or_release, try_acquire, try_release, update_wake_lock, wake_lock_thread,
  outstanding_after, drop_wake_lock, stop_wake_lock_thread, set_queues, usable, initialize,
  shutdown, write_events, post_events, to_int32,
}

-- Whether the system holds the lock after the calls, newest first: a call that fails changes nothing.
abbrev pub lock_held : List LockCall → Bool
lock_held [] = false
lock_held (acquire true ∷ calls) = true
lock_held (acquire false ∷ calls) = lock_held calls
lock_held (release true ∷ calls) = false
lock_held (release false ∷ calls) = lock_held calls

pub record IsSound (d : Dispatcher) : Type 0 where
  pub bounded : d.outstanding_wake_up_events < 2 ^ 32
  pub held : d.has_wake_lock ≡ true → lock_held d.lock_calls ≡ true
  pub queue : d.wake_lock_thread_run ≡ true → d.wake_lock_queue ≡ true
  pub both : d.event_queue ≡ d.wake_lock_queue
  pub flag : d.event_queue ≡ d.event_queue_flag

lock_held-acquire :
    (ok : Bool) (calls : List LockCall) → ok ≡ true → lock_held (acquire ok ∷ calls) ≡ true
lock_held-acquire true calls e = refl
lock_held-acquire false calls e = absurd (ground arith)

lock_held-release :
    (ok : Bool) (calls : List LockCall)
    → lock_held calls ≡ true
    → not ok ≡ true
    → lock_held (release ok ∷ calls) ≡ true
lock_held-release true calls h e = absurd (ground arith)
lock_held-release false calls h e = h

count_events-IsSound :
    (timeout now : ℕ) (w h : ℤ) (d : Dispatcher)
    → IsSound d
    → IsSound (count_events timeout now w h d)
unfolding count_events outstanding_after
count_events-IsSound timeout now w h d s = record {
  bounded = omega arith;
  held = s.held;
  queue = s.queue;
  both = s.both;
  flag = s.flag;
}

try_acquire-IsSound : (ok : Bool) (d : Dispatcher) → IsSound d → IsSound (try_acquire ok d)
unfolding try_acquire
try_acquire-IsSound ok d s = record {
  bounded = s.bounded;
  held = lock_held-acquire ok d.lock_calls;
  queue = s.queue;
  both = s.both;
  flag = s.flag;
}

try_release-IsSound :
    (ok : Bool) (d : Dispatcher) → d.has_wake_lock ≡ true → IsSound d → IsSound (try_release ok d)
unfolding try_release
try_release-IsSound ok d h s = record {
  bounded = s.bounded;
  held = lock_held-release ok d.lock_calls (s.held h);
  queue = s.queue;
  both = s.both;
  flag = s.flag;
}

if-IsSound :
    (b : Bool) (d d' : Dispatcher)
    → (b ≡ true → IsSound d)
    → (b ≡ false → IsSound d')
    → IsSound (if b then d else d')
if-IsSound true d d' f g = f refl
if-IsSound false d d' f g = g refl

expire-IsSound :
    (now : ℕ) (d : Dispatcher)
    → d.has_wake_lock ≡ true
    → IsSound d
    → IsSound (expire now d) × ((expire now d).has_wake_lock ≡ true)
unfolding expire
expire-IsSound now d h s = (
  if-IsSound _ (record d { outstanding_wake_up_events = 0 }) d
      (λ late. record {
        bounded = omega arith;
        held = s.held;
        queue = s.queue;
        both = s.both;
        flag = s.flag;
      })
      (λ early. s),
  ground arith,
)

keep_or_release-IsSound :
    (ans : Answers) (d : Dispatcher)
    → d.has_wake_lock ≡ true
    → IsSound d
    → IsSound (keep_or_release ans d)
unfolding keep_or_release
keep_or_release-IsSound ans d h s =
    if-IsSound _ _ _ (λ none_left. try_release-IsSound ans.released d h s) (λ some_left. s)

settle-IsSound : (ans : Answers) (d : Dispatcher) → IsSound d → IsSound (settle_wake_lock ans d)
unfolding settle_wake_lock
settle-IsSound ans d s =
    if-IsSound _ _ _ (λ wanted. try_acquire-IsSound ans.acquired d s)
      (λ other.
        if-IsSound _ _ _
          (λ h.
            let (s', h') = expire-IsSound ans.now d h s in
            keep_or_release-IsSound ans (expire ans.now d) h' s')
          (λ free. s))

update-IsSound :
    (timeout : ℕ) (ans : Answers) (w h : ℤ) (d : Dispatcher)
    → IsSound d
    → IsSound (update_wake_lock timeout ans w h d)
unfolding update_wake_lock
update-IsSound timeout ans w h d s =
    settle-IsSound ans _ (count_events-IsSound timeout ans.now w h d s)

write_events-IsSound :
    (timeout : ℕ) (ans : Answers) (events : List Event) (wakeup : Bool) (d : Dispatcher)
    → IsSound d
    → IsSound (write_events timeout ans events wakeup d)
unfolding write_events
write_events-IsSound timeout ans events wakeup d s =
    if-IsSound wakeup _ _
      (λ w.
        update-IsSound timeout ans (to_int32 (length events)) (pos 0)
          (record d { written = events ∷ d.written }) written)
      (λ w. written)
  where
    written : IsSound (record d { written = events ∷ d.written })
    written = record {
      bounded = s.bounded;
      held = s.held;
      queue = s.queue;
      both = s.both;
      flag = s.flag;
    }

drop-IsSound : (ok : Bool) (d : Dispatcher) → IsSound d → IsSound (drop_wake_lock ok d)
unfolding drop_wake_lock
drop-IsSound ok d s =
    if-IsSound d.has_wake_lock
      (record d {
        outstanding_wake_up_events = 0;
        has_wake_lock = false;
        lock_calls = release ok ∷ d.lock_calls;
      })
      (record d { outstanding_wake_up_events = 0 })
      (λ h. record {
        bounded = omega arith;
        held = λ e. absurd (ground arith);
        queue = s.queue;
        both = s.both;
        flag = s.flag;
      })
      (λ h. record {
        bounded = omega arith;
        held = s.held;
        queue = s.queue;
        both = s.both;
        flag = s.flag;
      })

drop-queue :
    (ok : Bool) (d : Dispatcher) → (drop_wake_lock ok d).wake_lock_queue ≡ d.wake_lock_queue
unfolding drop_wake_lock
drop-queue ok d = ground arith

-- The queues are replaced once the thread is stopped.
stopped-IsSound :
    (ok : Bool) (d : Dispatcher) → IsSound d → IsSound (set_queues ok (stop_wake_lock_thread d))
unfolding set_queues stop_wake_lock_thread
stopped-IsSound ok d s = record {
  bounded = s.bounded;
  held = s.held;
  queue = λ e. absurd (ground arith);
  both = refl;
  flag = refl;
}

started-IsSound :
    (ok : Bool) (d : Dispatcher)
    → d.wake_lock_queue ≡ ok
    → IsSound d
    → IsSound (record d { wake_lock_thread_run = ok })
started-IsSound ok d w s = record {
  bounded = s.bounded;
  held = s.held;
  queue = λ e. w ∙ e;
  both = s.both;
  flag = s.flag;
}

initialize-IsSound :
    (desc : Descriptors) (ans : Answers) (d : Dispatcher)
    → IsSound d
    → IsSound (initialize desc ans d)
unfolding initialize
initialize-IsSound desc ans d s =
    let stopped = set_queues (usable desc) (stop_wake_lock_thread d) in
    started-IsSound (usable desc) (drop_wake_lock ans.released stopped)
      (unfold set_queues in drop-queue ans.released stopped)
      (drop-IsSound ans.released stopped (stopped-IsSound (usable desc) d s))

-- Any call of the dispatcher, in the order in which the calls take its mutexes.
pub data Operation : Type 0 where
  initialize_queues : Descriptors → Answers → Operation
  shut_down : Answers → Operation
  post : List Event → Bool → Answers → Operation
  turn : ℤ → Answers → Operation

unfoldable pub step : ℕ → Operation → Dispatcher → Dispatcher
step timeout (initialize_queues desc ans) d = initialize desc ans d
step timeout (shut_down ans) d = shutdown ans d
step timeout (post events wakeup ans) d = post_events timeout ans events wakeup d
step timeout (turn handled ans) d = wake_lock_thread timeout ans handled d

unfoldable pub run : ℕ → List Operation → Dispatcher → Dispatcher
run timeout [] d = d
run timeout (op ∷ ops) d = run timeout ops (step timeout op d)

step-IsSound :
    (timeout : ℕ) (op : Operation) (d : Dispatcher) → IsSound d → IsSound (step timeout op d)
unfolding step shutdown post_events wake_lock_thread
step-IsSound timeout (initialize_queues desc ans) d s = initialize-IsSound desc ans d s
step-IsSound timeout (shut_down ans) d s = drop-IsSound ans.released _ (stopped-IsSound false d s)
step-IsSound timeout (post events wakeup ans) d s =
    if-IsSound _ _ _ (λ quiet. s)
      (λ ready.
        if-IsSound ans.accepted (write_events timeout ans events wakeup d)
          (record d { dropped_events = (d.dropped_events + length events) % 2 ^ 64 })
          (λ a. write_events-IsSound timeout ans events wakeup d s)
          (λ a. record {
            bounded = s.bounded;
            held = s.held;
            queue = s.queue;
            both = s.both;
            flag = s.flag;
          }))
step-IsSound timeout (turn handled ans) d s =
    if-IsSound d.wake_lock_thread_run _ _ (λ r. update-IsSound timeout ans (pos 0) handled d s)
      (λ r. s)

-- From a sound dispatcher, over any sequence of calls, whatever they are answered: a dispatcher
-- that believes to hold the wake lock does hold it, the count stays below 2^32, and the thread
-- runs only while it has a queue.
pub run-IsSound :
    (timeout : ℕ) (ops : List Operation) (d : Dispatcher) → IsSound d → IsSound (run timeout ops d)
unfolding run
run-IsSound timeout [] d s = s
run-IsSound timeout (op ∷ ops) d s = run-IsSound timeout ops _ (step-IsSound timeout op d s)
