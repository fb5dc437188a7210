-- ===== src/Sensors/Manager/Protocol.antt =====
-- What include/libsensors_mainline/SensorBackend.h promises to a backend: no sensor is activated
-- that is active, or deactivated that is not, and the sampling periods are within its limits. The
-- promise is read off the log of calls; `Inv` ties the manager's state to it.
use android_hardware_mainlin.Prelude.{
  ℕ, ◌≡◌, refl, sym, subst, ◌∙◌, inl, inr, Bool, false, not, ◌&&◌, some, List, [], ◌∷◌, arith, ◌==◌,
  if◌then◌else◌, ==_iff, Bool-cases, Option-cases, ℤ, pos, ◌==ℤ◌, nat_key, bytes_key, lookup,
}
use android_hardware_mainlin.Sensors.SensorTypes.Traits.{SensorInfo}
use android_hardware_mainlin.Sensors.SensorTypes.Clamp.{InRange, HasRange}
use android_hardware_mainlin.Sensors.Manager.State.{
  HardwareSensor, Call, Log, modify, lookup-modify, Manager,
}

-- Whether a backend has a sensor active after one call more.
abbrev effect : Call → ℤ → ℕ → ℕ → Bool → Bool
effect (Call.activate j k enabled) r i l before =
    if (j == i) && ((k == l) && (r ==ℤ pos 0)) then enabled else before
effect (Call.deinitialize j) r i l before = if j == i then false else before
effect _ r i l before = before

-- Whether a backend has a sensor active: what the last call that succeeded asked for.
abbrev pub active_of : Log → ℕ → ℕ → Bool
active_of [] i l = false
active_of ((c, r) ∷ log) i l = effect c r i l (active_of log i l)

-- The sensor that a backend has under a local handle.
abbrev pub Sensors : Type 0
Sensors = ℕ → ℕ → SensorInfo

abbrev pub Admissible : Sensors → Call → Log → Type 0
Admissible infos (Call.activate i l enabled) log = active_of log i l ≡ not enabled
Admissible infos (Call.batch i l period latency) log = InRange (infos i l) period
Admissible infos _ log = Unit {0}

abbrev pub Conforms : Sensors → Log → Type 0
Conforms infos [] = Unit {0}
Conforms infos ((c, r) ∷ log) = Admissible infos c log × Conforms infos log

pub record Tracks (infos : Sensors) (log : Log) (hw : HardwareSensor) : Type 0 where
  pub active : hw.backend_active ≡ active_of log hw.backend_index hw.local_handle
  pub info : infos hw.backend_index hw.local_handle ≡ hw.info
  pub ordered : HasRange hw.info
  pub in_range : InRange hw.info hw.client_period_ns

abbrev pub Table : Type 0
Table = List (ℕ × HardwareSensor)

pub record Inv (infos : Sensors) (table : Table) (log : Log) : Type 0 where
  pub tracks : (h : ℕ) (hw : HardwareSensor) → lookup h table ≡ some hw → Tracks infos log hw
  pub distinct :
      (h k : ℕ) (x y : HardwareSensor)
      → lookup h table ≡ some x
      → lookup k table ≡ some y
      → x.backend_index ≡ y.backend_index
      → x.local_handle ≡ y.local_handle
      → h ≡ k
  pub conforms : Conforms infos log

-- What a write to a sensor keeps if it leaves the backend's side alone.
pub record SameBackend (x y : HardwareSensor) : Type 0 where
  pub index : y.backend_index ≡ x.backend_index
  pub local : y.local_handle ≡ x.local_handle
  pub active : y.backend_active ≡ x.backend_active
  pub info : y.info ≡ x.info

-- The entry that an entry of a rewritten table comes from.
abbrev pub From : Table → ℕ → HardwareSensor → Type 0
From table h y =
    (x : HardwareSensor) × (lookup h table ≡ some x)
    × SameBackend x y
    × InRange y.info y.client_period_ns

module _ (infos : Sensors) where
  Tracks-same :
      (log : Log) (x y : HardwareSensor)
      → SameBackend x y
      → InRange y.info y.client_period_ns
      → Tracks infos log x
      → Tracks infos log y
  Tracks-same log x y s r t = record {
    active = rw (s.index, s.local) (s.active ∙ t.active);
    info = rw (s.index, s.local) (t.info ∙ sym s.info);
    ordered = subst HasRange (sym s.info) t.ordered;
    in_range = r;
  }

  -- The table may change in all but the backend's side of its sensors.
  pub Inv-From :
      (table new : Table) (log : Log)
      → ((h : ℕ) (y : HardwareSensor) → lookup h new ≡ some y → From table h y)
      → Inv infos table log
      → Inv infos new log
  Inv-From table new log from v = record {
    tracks = λ h y e. let (x, ex, s, r) = from h y e in Tracks-same log x y s r (v.tracks h x ex);
    distinct = λ h k y y' e e' i l.
        let (x, ex, s, r) = from h y e in
        let (x', ex', s', r') = from k y' e' in
        v.distinct h k x x' ex ex' (sym s.index ∙ i ∙ s'.index) (sym s.local ∙ l ∙ s'.local);
    conforms = v.conforms;
  }

pub modified :
    (h j : ℕ) (f : HardwareSensor → HardwareSensor) (l : Table) (y : HardwareSensor)
    → lookup j (modify h f l) ≡ some y
    → (x : HardwareSensor) × (lookup j l ≡ some x) × (y ≡ (if h == j then f x else x))
modified h j f l y e = elim (Option-cases (lookup j l)) [
  | inl none_there ↦ absurd (ground (arith, lookup-modify h j f l))
  | inr (x, there) ↦ (x, there, ground (arith, lookup-modify h j f l))
]

pub SameBackend-refl : (x : HardwareSensor) → SameBackend x x
SameBackend-refl x = record { index = refl; local = refl; active = refl; info = refl }

module _ (infos : Sensors) where
  pub modify-Inv :
      (h : ℕ) (f : HardwareSensor → HardwareSensor) (table : Table) (log : Log)
      → ((x : HardwareSensor)
          → lookup h table ≡ some x
          → SameBackend x (f x) × InRange (f x).info (f x).client_period_ns)
      → Inv infos table log
      → Inv infos (modify h f table) log
  modify-Inv h f table log keep v = Inv-From infos table (modify h f table) log from v
    where
      written :
          (j : ℕ) (x : HardwareSensor)
          → lookup j table ≡ some x
          → let y = if h == j then f x else x in SameBackend x y × InRange y.info y.client_period_ns
      written j x e = elim (Bool-cases (h == j)) [
        | inl same ↦
            rw same (keep x (subst (λ k. lookup k table ≡ some x) (sym ((==_iff h j).0 same)) e))
        | inr other ↦ rw other (SameBackend-refl x, (v.tracks j x e).in_range)
      ]

      from : (j : ℕ) (y : HardwareSensor) → lookup j (modify h f table) ≡ some y → From table j y
      from j y e =
          let (x, ex, ey) = modified h j f table y e in
          let (s, r) = written j x ex in
          (
            x,
            ex,
            subst (SameBackend x) (sym ey) s,
            subst (λ z. InRange z.info z.client_period_ns) (sym ey) r,
          )

  -- A call that leaves the backend's sensors as they are.
  abbrev pub IsQuiet : Call → ℤ → Type 0
  IsQuiet c r = (i l : ℕ) (before : Bool) → effect c r i l before ≡ before

  pub quiet-Inv :
      (table : Table) (log : Log) (c : Call) (r : ℤ)
      → IsQuiet c r
      → Admissible infos c log
      → Inv infos table log
      → Inv infos table ((c, r) ∷ log)
  quiet-Inv table log c r quiet ok v = record {
    tracks = λ h hw e.
        let t = v.tracks h hw e in
        record {
          active = t.active ∙ sym (quiet _ _ _);
          info = t.info;
          ordered = t.ordered;
          in_range = t.in_range;
        };
    distinct = v.distinct;
    conforms = (ok, v.conforms);
  }

-- The invariant of a state of the manager.
pub record Holds {S : Type 0} (infos : Sensors) (m : Manager S) : Type 0 where
  pub inv : Inv infos m.hardware m.calls
