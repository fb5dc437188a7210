-- ===== src/Sensors/DeviceOrientation/Spacing.antt =====
-- How often DeviceOrientationSensor.cpp reports a rotation.
use android_hardware_mainlin.Prelude.{
  ◌≡◌, refl, inl, inr, true, false, not, ◌||◌, List, [], ◌∷◌, ◌++◌, arith, Bool-cases, Option-cases,
  ℤ, ◌+ℤ◌, ◌≤ℤ◌, ◌==ℤ◌, nat_key, bytes_key,
}
use android_hardware_mainlin.Sensors.Events.{make_scalar_event, make_event}
use android_hardware_mainlin.Sensors.DeviceOrientation.{
  Orientation, note_candidate, settle, settle_time_ns, below_zero, no_rotation, Event, FloatMath,
  process_event, CompositeSensor, process_vec, same_type, accelerometer, vec3_of, compute_rotation,
  apply_matrix,
}

module _ (math : FloatMath) where
  -- What an active or inactive sensor reports for a list of events.
  abbrev pub outputs : CompositeSensor Orientation → List Event → List Event
  outputs c [] = []
  outputs c (event ∷ events) =
      (process_event math c event).1
      ++ outputs (record c { inner = (process_event math c event).0 }) events

-- Timestamps that do not decrease, from a time on.
abbrev pub Ordered : ℤ → List Event → Type 0
Ordered t [] = Unit {0}
Ordered t (event ∷ events) = (t ≤ℤ event.timestamp) × Ordered event.timestamp events

-- Each event is at least the settle time after the one before it.
abbrev pub Spaced : ℤ → List Event → Type 0
Spaced t [] = Unit {0}
Spaced t (event ∷ events) = (t +ℤ settle_time_ns ≤ℤ event.timestamp) × Spaced event.timestamp events

abbrev pub SpacedAfterFirst : List Event → Type 0
SpacedAfterFirst [] = Unit {0}
SpacedAfterFirst (event ∷ events) = Spaced event.timestamp events

Ordered-from : (t u : ℤ) (events : List Event) → t ≤ℤ u → Ordered u events → Ordered t events
Ordered-from t u [] l o = tt
Ordered-from t u (event ∷ events) l o = (omega arith, o.1)

-- Since a report at `t`, another candidate has been held since `t` or later.
record Settled (t : ℤ) (o : Orientation) : Type 0 where
  reported : below_zero o.reported_rotation ≡ false
  since :
      below_zero o.candidate_rotation ≡ false
      → (o.candidate_rotation ==ℤ o.reported_rotation) ≡ false
      → t ≤ℤ o.candidate_since_ns

quiet-Settled :
    (t now rotation : ℤ) (o : Orientation)
    → Settled t o
    → t ≤ℤ now
    → (settle rotation now o).1 ≡ false
    → Settled t (settle rotation now o).0
unfolding settle note_candidate
quiet-Settled t now rotation o s l q = record {
  reported = ground (arith, s.reported);
  since = λ c d. ground (arith, s.reported, s.since);
}

report-Settled :
    (now rotation : ℤ) (o : Orientation)
    → (settle rotation now o).1 ≡ true
    → Settled now (settle rotation now o).0
unfolding settle note_candidate
report-Settled now rotation o r = record { reported = ground arith; since = λ c d. ground arith }

report-late :
    (t now rotation : ℤ) (o : Orientation)
    → Settled t o
    → t ≤ℤ now
    → (settle rotation now o).1 ≡ true
    → t +ℤ settle_time_ns ≤ℤ now
unfolding settle note_candidate
report-late t now rotation o s l r = ground (arith, s.reported, s.since)

quiet-fresh :
    (now rotation : ℤ) (o : Orientation)
    → o.reported_rotation ≡ no_rotation
    → (settle rotation now o).1 ≡ false
    → (settle rotation now o).0.reported_rotation ≡ no_rotation
unfolding settle note_candidate
quiet-fresh now rotation o f q = ground (arith)

-- An event is passed over, or it is a sample that is not reported, or one that is.
data Taken (math : FloatMath) (c : CompositeSensor Orientation) (event : Event) : Type 0 where
  passed_over : process_event math c event ≡ (c.inner, []) → Taken math c event
  sampled :
      (rotation : ℤ)
      → (settle rotation event.timestamp c.inner).1 ≡ false
      → process_event math c event ≡ ((settle rotation event.timestamp c.inner).0, [])
      → Taken math c event
  reported_event :
      (rotation : ℤ) (out : Event)
      → (settle rotation event.timestamp c.inner).1 ≡ true
      → out.timestamp ≡ event.timestamp
      → process_event math c event ≡ ((settle rotation event.timestamp c.inner).0, out ∷ [])
      → Taken math c event

taken : (math : FloatMath) (c : CompositeSensor Orientation) (event : Event) → Taken math c event
unfolding process_event process_vec make_scalar_event make_event
taken math c event =
    elim (Bool-cases (not c.active || not (same_type event.sensor_type accelerometer))) [
      | inl skipped ↦ passed_over (rw (skipped) refl)
      | inr kept ↦ elim (Option-cases (vec3_of event.payload)) [
        | inl other ↦ passed_over (rw (kept) (rw (other, process_event) refl))
        | inr (v, is_vec) ↦
            let rotation =
              compute_rotation math c.inner.rotation_offset
                (apply_matrix math c.inner.workaround_matrix v) in
            elim (Bool-cases (settle rotation event.timestamp c.inner).1) [
              | inl r ↦
                  reported_event rotation
                    (make_scalar_event c.info.sensor_handle c.info.type event.timestamp
                      (math.of_int rotation))
                    r refl (rw kept (rw (is_vec, process_event) (rw r refl)))
              | inr q ↦ sampled rotation q (rw kept (rw (is_vec, process_event) (rw q refl)))
            ]
      ]
    ]

outputs-Spaced :
    (math : FloatMath) (t : ℤ) (c : CompositeSensor Orientation) (events : List Event)
    → Settled t c.inner
    → Ordered t events
    → Spaced t (outputs math c events)
outputs-Spaced math t c [] s o = tt
outputs-Spaced math t c (event ∷ events) s o = elim (taken math c event) [
  | passed_over e ↦
      rw e (outputs-Spaced math t c events s (Ordered-from t event.timestamp events o.0 o.1))
  | sampled rotation q e ↦ rw e (
      outputs-Spaced math t _ events (quiet-Settled t event.timestamp rotation c.inner s o.0 q)
        (Ordered-from t event.timestamp events o.0 o.1))
  | reported_event rotation out r same e ↦
      rw (e, same)
        (
          report-late t event.timestamp rotation c.inner s o.0 r,
          outputs-Spaced math event.timestamp _ events
              (report-Settled event.timestamp rotation c.inner r) o.1,
        )
]

-- From an activation on, whatever the events and the float arithmetic: if the timestamps do not
-- decrease, each report after the first is at least the settle time of 250 ms after the report before it.
pub reports-Spaced :
    (math : FloatMath) (t : ℤ) (c : CompositeSensor Orientation) (events : List Event)
    → c.inner.reported_rotation ≡ no_rotation
    → Ordered t events
    → SpacedAfterFirst (outputs math c events)
reports-Spaced math t c [] f o = tt
reports-Spaced math t c (event ∷ events) f o = elim (taken math c event) [
  | passed_over e ↦ rw e (reports-Spaced math event.timestamp c events f o.1)
  | sampled rotation q e ↦ rw e (
      reports-Spaced math event.timestamp _ events
        (quiet-fresh event.timestamp rotation c.inner f q) o.1)
  | reported_event rotation out r same e ↦
      rw (e, same)
        (outputs-Spaced math event.timestamp _ events
          (report-Settled event.timestamp rotation c.inner r) o.1)
]
