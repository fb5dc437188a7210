-- ===== src/Sensors/EventDispatcher/WakeLock.antt =====
-- When UpdateWakeLock of EventDispatcher.cpp holds the wake lock.
use android_hardware_mainlin.Prelude.{
  ℕ, ◌^◌, ◌<◌, ◌≡◌, refl, ap, ◌∙◌, true, List, [], ◌∷◌, arith, ltb, leb, ℤ, pos, nat_key, bytes_key,
}
use android_hardware_mainlin.Sensors.EventDispatcher.{
  Dispatcher, Answers, count_events, settle_wake_lock, expire, keep_or_release, try_acquire,
  try_release, update_wake_lock, wake_lock_thread, outstanding_after,
}

settle-held :
    (ans : Answers) (d : Dispatcher)
    → ans.acquired ≡ true
    → ans.released ≡ true
    → (settle_wake_lock ans d).has_wake_lock
      ≡ ltb 0 (settle_wake_lock ans d).outstanding_wake_up_events
unfolding settle_wake_lock try_acquire expire keep_or_release try_release
settle-held ans d a r = ground arith

-- Where the calls of the wake lock succeed, UpdateWakeLock leaves the lock held exactly if some
-- wake-up event is outstanding.
pub update_wake_lock-held :
    (timeout : ℕ) (ans : Answers) (events_written events_handled : ℤ) (d : Dispatcher)
    → ans.acquired ≡ true
    → ans.released ≡ true
    → (update_wake_lock timeout ans events_written events_handled d).has_wake_lock
      ≡ ltb 0
          (update_wake_lock timeout ans events_written events_handled d).outstanding_wake_up_events
unfolding update_wake_lock
update_wake_lock-held timeout ans events_written events_handled d a r =
    settle-held ans (count_events timeout ans.now events_written events_handled d) a r

-- A turn of the wake lock thread: what the framework acknowledged and what the calls answered.
abbrev pub Turn : Type 0
Turn = Answers × ℤ

abbrev pub turns : ℕ → List Turn → Dispatcher → Dispatcher
turns timeout [] d = d
turns timeout ((ans, handled) ∷ ts) d = turns timeout ts (wake_lock_thread timeout ans handled d)

turn-keeps :
    (timeout : ℕ) (ans : Answers) (handled : ℤ) (d : Dispatcher)
    → ((wake_lock_thread timeout ans handled d).auto_release_time ≡ d.auto_release_time)
      × ((wake_lock_thread timeout ans handled d).wake_lock_thread_run ≡ d.wake_lock_thread_run)
unfolding wake_lock_thread update_wake_lock count_events settle_wake_lock try_acquire expire
    keep_or_release try_release
turn-keeps timeout ans handled d = (ground arith, ground arith)

turns-keep :
    (timeout : ℕ) (ts : List Turn) (d : Dispatcher)
    → ((turns timeout ts d).auto_release_time ≡ d.auto_release_time)
      × ((turns timeout ts d).wake_lock_thread_run ≡ d.wake_lock_thread_run)
turns-keep timeout [] d = (refl, refl)
turns-keep timeout ((ans, handled) ∷ ts) d =
    let (t, r) = turns-keep timeout ts (wake_lock_thread timeout ans handled d) in
    let (t', r') = turn-keeps timeout ans handled d in (t ∙ t', r ∙ r')

idle-settle :
    (ans : Answers) (d : Dispatcher)
    → ans.released ≡ true
    → d.has_wake_lock ≡ true
    → 0 < d.outstanding_wake_up_events
    → (settle_wake_lock ans d).has_wake_lock ≡ leb ans.now d.auto_release_time
unfolding settle_wake_lock try_acquire expire keep_or_release try_release
idle-settle ans d r held some_left = ground arith

-- While the thread runs and the lock is held for fewer than 2^32 outstanding events, whatever
-- turns came before: a turn without an acknowledgement, whose call to release would succeed,
-- keeps the lock up to the deadline and releases it after the deadline.
pub turn-deadline :
    (timeout : ℕ) (ts : List Turn) (ans : Answers) (d : Dispatcher)
    → ans.released ≡ true
    → d.wake_lock_thread_run ≡ true
    → (turns timeout ts d).has_wake_lock ≡ true
    → 0 < (turns timeout ts d).outstanding_wake_up_events
    → (turns timeout ts d).outstanding_wake_up_events < 2 ^ 32
    → (wake_lock_thread timeout ans (pos 0) (turns timeout ts d)).has_wake_lock
      ≡ leb ans.now d.auto_release_time
unfolding wake_lock_thread update_wake_lock count_events outstanding_after
turn-deadline timeout ts ans d r running held some_left small =
    let last = turns timeout ts d in
    let (t, run) = turns-keep timeout ts d in
    rw (run ∙ running) (idle-settle ans _ r held (ground arith) ∙ ap (leb ans.now) t)
