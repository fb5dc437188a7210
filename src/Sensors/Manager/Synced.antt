-- ===== src/Sensors/Manager/Synced.antt =====
-- ApplyHardwareState keeps the protocol invariant: the calls it makes are admissible, and what it
-- records of a sensor is what the backend was told.
use android_hardware_mainlin.Prelude.{
  ℕ, ◌≡◌, refl, sym, ap, subst, ◌∙◌, ap₂, subst₂, ◌⊎◌, inl, inr, Bool, true, false, not, some, List,
  [], ◌∷◌, arith, ◌==◌, if◌then◌else◌, Bool-cases, ℤ, pos, ◌==ℤ◌, ==ℤ_iff, min_ℤ, nat_key,
  bytes_key, lookup,
}
use android_hardware_mainlin.Sensors.SensorTypes.Clamp.{
  InRange, HasRange, clamp_sampling_period_ns, clamp_sampling_period_ns-InRange,
}
use android_hardware_mainlin.Sensors.SensorTypes.Traits.{SensorInfo}
use android_hardware_mainlin.Sensors.Manager.Apply.{desired_period, fastest}
use android_hardware_mainlin.Sensors.Manager.State.{HardwareSensor, Call, Log, modify}
use android_hardware_mainlin.Sensors.Manager.Protocol.{Sensors, Table, Inv, Tracks, modified}

abbrev pub set_active : Bool → HardwareSensor → HardwareSensor
set_active enabled x = record x { backend_active = enabled }

kept :
    (b enabled : Bool) (z y : HardwareSensor)
    → y ≡ (if b then set_active enabled z else z)
    → (y.backend_index ≡ z.backend_index)
      × (y.local_handle ≡ z.local_handle)
      × (y.info ≡ z.info)
      × (y.client_period_ns ≡ z.client_period_ns)
      × (y.backend_active ≡ (if b then enabled else z.backend_active))
kept true enabled z y e = (
  ap (λ t. t.backend_index) e,
  ap (λ t. t.local_handle) e,
  ap (λ t. t.info) e,
  ap (λ t. t.client_period_ns) e,
  ap (λ t. t.backend_active) e,
)
kept false enabled z y e = (
  ap (λ t. t.backend_index) e,
  ap (λ t. t.local_handle) e,
  ap (λ t. t.info) e,
  ap (λ t. t.client_period_ns) e,
  ap (λ t. t.backend_active) e,
)

same_entry :
    (table : Table) (h j : ℕ) (x z : HardwareSensor)
    → lookup h table ≡ some x
    → lookup j table ≡ some z
    → h ≡ j
    → z ≡ x
same_entry table h j x z ex ez e = cc (subst (λ k. lookup k table ≡ some x) e ex)

module _ (infos : Sensors) where
  -- A successful Activate is recorded, and is the only thing that the backend's state follows.
  pub activated :
      (h : ℕ) (x : HardwareSensor) (enabled : Bool) (table : Table) (log : Log)
      → Inv infos table log
      → lookup h table ≡ some x
      → x.backend_active ≡ not enabled
      → Inv infos
          (modify h (set_active enabled) table)
          ((Call.activate x.backend_index x.local_handle enabled, pos 0) ∷ log)
  activated h x enabled table log v ex was = record {
    tracks = λ j y e. track j y e;
    distinct = λ j k y z ey ez i l.
        let (y', ey', sy) = modified h j _ table y ey in
        let (z', ez', sz) = modified h k _ table z ez in
        let a = kept (h == j) enabled y' y sy in
        let b = kept (h == k) enabled z' z sz in
        v.distinct j k y' z' ey' ez' (sym a.0 ∙ i ∙ b.0) (sym a.1 ∙ l ∙ b.1);
    conforms = (sym (v.tracks h x ex).active ∙ was, v.conforms);
  }
    where
      track :
          (j : ℕ) (y : HardwareSensor)
          → lookup j (modify h (set_active enabled) table) ≡ some y
          → Tracks infos ((Call.activate x.backend_index x.local_handle enabled, pos 0) ∷ log) y
      track j y e =
          let (z, ez, ey) = modified h j _ table y e in
          let t = v.tracks j z ez in
          let k = kept (h == j) enabled z y ey in
          record {
            active = ground (
              arith,
              k.0,
              k.1,
              k.4,
              t.active,
              same_entry table h j x z ex ez,
              v.distinct h j x z ex ez,
            );
            info = ap₂ infos k.0 k.1 ∙ t.info ∙ sym k.2;
            ordered = subst HasRange (sym k.2) t.ordered;
            in_range = subst₂ InRange (sym k.2) (sym k.3) t.in_range;
          }

-- One of two periods that are within the limits, whichever the test picks.
pick-InRange :
    (info : SensorInfo) (b : Bool) (p q : ℤ)
    → InRange info p
    → InRange info q
    → InRange info (if b then p else q)
pick-InRange info true p q h k = h
pick-InRange info false p q h k = k

fastest-InRange :
    (info : SensorInfo) (d : ℤ) (periods : List (ℕ × ℤ))
    → HasRange info
    → (d ≡ pos 0) ⊎ InRange info d
    → (fastest info d periods ≡ pos 0) ⊎ InRange info (fastest info d periods)
unfolding fastest
fastest-InRange info d [] o h = h
fastest-InRange info d ((composite, period) ∷ rest) o h =
    fastest-InRange info (if d ==ℤ pos 0 then p else min_ℤ d p) rest o
      (inr (next h (Bool-cases (d ==ℤ pos 0))))
  where
    p : ℤ
    p = clamp_sampling_period_ns info period

    pr : InRange info p
    pr = clamp_sampling_period_ns-InRange info period o

    next :
        (d ≡ pos 0) ⊎ InRange info d
        → ((d ==ℤ pos 0) ≡ true) ⊎ ((d ==ℤ pos 0) ≡ false)
        → InRange info (if d ==ℤ pos 0 then p else min_ℤ d p)
    next h (inl zero_so_far) = rw zero_so_far pr
    next (inl e) (inr other) = absurd (ground (arith, ==ℤ_iff d (pos 0)))
    next (inr r) (inr other) = rw other (pick-InRange info _ p d pr r)

pub desired_period-InRange :
    (hw : HardwareSensor)
    → HasRange hw.info
    → InRange hw.info hw.client_period_ns
    → InRange hw.info (desired_period hw)
unfolding desired_period
desired_period-InRange hw o r =
    finish _ (fastest-InRange hw.info _ hw.composite_periods o (start hw.client_active))
  where
    start :
        (b : Bool)
        → ((if b then hw.client_period_ns else pos 0) ≡ pos 0)
          ⊎ InRange hw.info (if b then hw.client_period_ns else pos 0)
    start true = inr r
    start false = inl refl

    finish :
        (u : ℤ)
        → (u ≡ pos 0) ⊎ InRange hw.info u
        → InRange hw.info (if u ==ℤ pos 0 then hw.client_period_ns else u)
    finish u (inl e) = rw ((==ℤ_iff u (pos 0)).1 e) r
    finish u (inr q) = pick-InRange hw.info _ _ _ r q
