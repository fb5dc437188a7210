-- ===== src/Sensors/Manager/Numbering.antt =====
-- The sensors of one backend as RegisterHardwareSensors of SensorManager.cpp adds them.
use android_hardware_mainlin.Prelude.{
  ℕ, suc, ◌<◌, ◌≡◌, refl, sym, ap, subst, ◌∙◌, inl, inr, Bool, true, false, ◌&&◌, some, List, [],
  ◌∷◌, arith, ◌==◌, if◌then◌else◌, ==_iff, ==_refl, Bool-cases, is_some, Bytes, nat_key, bytes_key,
  lookup, insert, lookup-insert, contains,
}
use android_hardware_mainlin.Sensors.SensorType.{SensorType, sensor_type_key}
use android_hardware_mainlin.Sensors.SensorTypes.Traits.{SensorInfo}
use android_hardware_mainlin.Sensors.Manager.State.{HardwareSensor}
use android_hardware_mainlin.Sensors.Manager.Protocol.{Table}
use android_hardware_mainlin.Sensors.Manager.Registration.{
  Progress, adopt_info, new_sensor, add_sensor, register_sensor, register_list, is_invalid,
}

-- Every sensor carries its key as its handle, and later handles are free.
pub record IsNumbered (table : Table) (next : ℕ) : Type 0 where
  pub numbered :
      (h : ℕ) (hw : HardwareSensor)
      → lookup h table ≡ some hw
      → (hw.handle ≡ h) × (hw.info.sensor_handle ≡ h) × (h < next)

-- Backend `i` reaches a sensor of its own under each local handle of the mapping.
pub record Reaches (i : ℕ) (mapping : List (ℕ × ℕ)) (table : Table) : Type 0 where
  pub reached :
      (l h : ℕ)
      → lookup l mapping ≡ some h
      → (hw : HardwareSensor) × (lookup h table ≡ some hw)
        × (hw.backend_index ≡ i)
        × (hw.local_handle ≡ l)

pub record Extends (table new : Table) : Type 0 where
  pub kept : (h : ℕ) (hw : HardwareSensor) → lookup h table ≡ some hw → lookup h new ≡ some hw

pub record IsGood (i : ℕ) (old : Table) (p : Progress) : Type 0 where
  pub numbered : IsNumbered p.hardware p.next_handle
  pub extends : Extends old p.hardware
  pub reaches : Reaches i p.local_to_global p.hardware

pub insert-Extends :
    (next : ℕ) (new : HardwareSensor) (table : Table)
    → IsNumbered table next
    → Extends table (insert next new table)
insert-Extends next new table n = record {
  kept = λ h hw e.
      let (same, info, below) = n.numbered h hw e in
      lookup-insert next h new table ∙ rw (other next h below) e;
}
  where
    other : (a b : ℕ) → b < a → (a == b) ≡ false
    other a b l = ground arith

pub insert-IsNumbered :
    (next : ℕ) (new : HardwareSensor) (table : Table)
    → new.handle ≡ next
    → new.info.sensor_handle ≡ next
    → IsNumbered table next
    → IsNumbered (insert next new table) (suc next)
insert-IsNumbered next new table e f n = record {
  numbered = λ h hw found. elim (Bool-cases (next == h)) [
    | inl same ↦
        let here : new ≡ hw = ground (arith, lookup-insert next h new table) in
        let key = (==_iff next h).0 same in
        (
          ap (λ x. x.handle) (sym here) ∙ e ∙ key,
          ap (λ x. x.info.sensor_handle) (sym here) ∙ f ∙ key,
          omega arith,
        )
    | inr different ↦
        let (a, b, below) = n.numbered h hw (ground (arith, lookup-insert next h new table)) in
        (a, b, omega arith)
  ];
}

pub insert-Reaches :
    (i l next : ℕ) (new : HardwareSensor) (mapping : List (ℕ × ℕ)) (table : Table)
    → new.backend_index ≡ i
    → new.local_handle ≡ l
    → IsNumbered table next
    → Reaches i mapping table
    → Reaches i (insert l next mapping) (insert next new table)
insert-Reaches i l next new mapping table e f n r = record {
  reached = λ k h found. elim (Bool-cases (l == k)) [
    | inl same ↦
        let key : next ≡ h = ground (arith, lookup-insert l k next mapping) in
        (
          new,
          lookup-insert next h new table
              ∙ rw (subst (λ j. (next == j) ≡ true) key (==_refl next)) refl,
          e,
          f ∙ (==_iff l k).0 same,
        )
    | inr different ↦
        let (hw, there, index, local) =
          r.reached k h (ground (arith, lookup-insert l k next mapping)) in
        (hw, (insert-Extends next new table n).kept h hw there, index, local)
  ];
}

pub add_sensor-IsGood :
    (i : ℕ) (info : SensorInfo) (old : Table) (p : Progress)
    → IsGood i old p
    → IsGood i old (add_sensor i info p)
unfolding add_sensor new_sensor
add_sensor-IsGood i info old p g = record {
  numbered = insert-IsNumbered p.next_handle _ p.hardware refl refl g.numbered;
  extends = record {
    kept = λ h hw e.
        (insert-Extends p.next_handle _ p.hardware g.numbered).kept h hw (g.extends.kept h hw e);
  };
  reaches =
      insert-Reaches i info.sensor_handle p.next_handle _ p.local_to_global p.hardware refl refl
        g.numbered g.reaches;
}

pub if-IsGood :
    (c : Bool) (i : ℕ) (old : Table) (p q : Progress)
    → IsGood i old p
    → IsGood i old q
    → IsGood i old (if c then p else q)
if-IsGood true i old p q g h = g
if-IsGood false i old p q g h = h

pub register_list-IsGood :
    (i : ℕ) (name : Bytes) (fallback : Bool) (provided : List SensorType) (infos : List SensorInfo)
    (old : Table) (p : Progress)
    → IsGood i old p
    → IsGood i old (register_list i name fallback provided infos p)
unfolding register_list register_sensor
register_list-IsGood i name fallback provided [] old p g = g
register_list-IsGood i name fallback provided (info ∷ infos) old p g =
    register_list-IsGood i name fallback provided infos old _ (
      if-IsGood (fallback && contains info.type provided) i old p _ g (
        if-IsGood (is_some (lookup info.sensor_handle p.local_to_global)) i old p _ g (
          if-IsGood (is_invalid info) i old p _ g
            (add_sensor-IsGood i (adopt_info name p info) old p g))))
