-- ===== src/Sensors/Manager/Routing.antt =====
-- The tables of handles that RegisterHardwareSensors of SensorManager.cpp builds.
use android_hardware_mainlin.Prelude.{
  ℕ, zero, suc, ◌+◌, ◌<◌, ◌≡◌, refl, sym, ap, subst, ◌∙◌, ◌⊎◌, inl, inr, Bool, true, false, some,
  List, [], ◌∷◌, ◌++◌, arith, if◌then◌else◌, length, get_elem?, Bytes, nat_key, bytes_key, lookup,
}
use android_hardware_mainlin.Sensors.SensorType.{sensor_type_key}
use android_hardware_mainlin.Sensors.SensorTypes.Traits.{SensorInfo}
use android_hardware_mainlin.Sensors.Manager.State.{Backends, BackendEntry, HardwareSensor, Manager}
use android_hardware_mainlin.Sensors.Manager.Protocol.{Table}
use android_hardware_mainlin.Sensors.Manager.Registration.{
  Registered, register_list, register_entry, register_entries, none_registered,
  register_hardware_sensors, start_backend, end_backend,
}
use android_hardware_mainlin.Sensors.Manager.Numbering.{
  IsNumbered, Reaches, Extends, IsGood, register_list-IsGood,
}

get_elem?-snoc :
    {A : Type 0} (xs : List A) (x : A) (k : ℕ) (y : A)
    → get_elem? (xs ++ x ∷ []) k ≡ some y
    → (get_elem? xs k ≡ some y) ⊎ ((length xs ≡ k) × (x ≡ y))
get_elem?-snoc [] x zero y e = inr (refl, cc)
get_elem?-snoc [] x (suc k) y e = inl e
get_elem?-snoc (z ∷ xs) x zero y e = inl e
get_elem?-snoc (z ∷ xs) x (suc k) y e = elim (get_elem?-snoc xs x k y e) [
  | inl there ↦ inl there
  | inr (last, same) ↦ inr (ap suc last, same)
]

record IsRouted (i : ℕ) (r : Registered) : Type 0 where
  numbered : IsNumbered r.hardware r.next_handle
  count : length r.entries ≡ i
  routed :
      (k : ℕ) (entry : BackendEntry)
      → get_elem? r.entries k ≡ some entry
      → Reaches k entry.local_to_global r.hardware

Reaches-Extends :
    (i : ℕ) (mapping : List (ℕ × ℕ)) (table new : Table)
    → Extends table new
    → Reaches i mapping table
    → Reaches i mapping new
Reaches-Extends i mapping table new x r = record {
  reached = λ l h e.
      let (hw, there, index, local) = r.reached l h e in (hw, x.kept h hw there, index, local);
}

Reaches-none : (i : ℕ) (table : Table) → Reaches i [] table
Reaches-none i table = record { reached = λ l h e. cc }

-- One entry more, over a table that extends the one before.
snoc-routed :
    (i : ℕ) (r : Registered) (entry : BackendEntry) (new : Table)
    → IsRouted i r
    → Extends r.hardware new
    → Reaches i entry.local_to_global new
    → (k : ℕ) (e : BackendEntry) → get_elem? (r.entries ++ entry ∷ []) k ≡ some e
    → Reaches k e.local_to_global new
snoc-routed i r entry new g x last k e found = elim (get_elem?-snoc r.entries entry k e found) [
  | inl before ↦ Reaches-Extends k e.local_to_global r.hardware new x (g.routed k e before)
  | inr (here, same) ↦
      subst (λ b. Reaches k b.local_to_global new) same
        (subst (λ j. Reaches j entry.local_to_global new) (sym g.count ∙ here) last)
]

length-snoc : {A : Type 0} (xs : List A) (x : A) → length (xs ++ x ∷ []) ≡ suc (length xs)
length-snoc [] x = refl
length-snoc (y ∷ xs) x = ap suc (length-snoc xs x)

if-IsRouted :
    (c : Bool) (i : ℕ) (p q : Registered)
    → IsRouted i p
    → IsRouted i q
    → IsRouted i (if c then p else q)
if-IsRouted true i p q g h = g
if-IsRouted false i p q g h = h

register_entry-IsRouted :
    (i : ℕ) (name : Bytes) (infos : List SensorInfo) (entry : BackendEntry) (r : Registered)
    → IsRouted i r
    → IsRouted (suc i) (register_entry i name infos entry r)
unfolding register_entry
register_entry-IsRouted i name infos entry r g =
    let p = register_list i name entry.fallback_only r.provided_types infos (start_backend r) in
    let good : IsGood i r.hardware p =
      register_list-IsGood i name entry.fallback_only r.provided_types infos r.hardware
        (start_backend r)
        (record {
          numbered = g.numbered;
          extends = record { kept = λ h hw e. e };
          reaches = Reaches-none i r.hardware;
        }) in
    if-IsRouted entry.initialized (suc i) (end_backend entry p r)
      (record r { entries = r.entries ++ record entry { local_to_global = [] } ∷ [] })
      (record {
        numbered = good.numbered;
        count = length-snoc r.entries _ ∙ ap suc g.count;
        routed =
            snoc-routed i r (record entry { local_to_global = p.local_to_global }) p.hardware g
              good.extends good.reaches;
      })
      (record {
        numbered = g.numbered;
        count = length-snoc r.entries _ ∙ ap suc g.count;
        routed =
            snoc-routed i r (record entry { local_to_global = [] }) r.hardware g
              (record { kept = λ h hw e. e }) (Reaches-none i r.hardware);
      })

register_entries-IsRouted :
    (names : ℕ → Bytes) (infos : ℕ → List SensorInfo) (i : ℕ) (entries : List BackendEntry)
    (r : Registered)
    → IsRouted i r
    → IsRouted (i + length entries) (register_entries names infos i entries r)
unfolding register_entries
register_entries-IsRouted names infos i [] r g = subst (λ j. IsRouted j r) (omega arith) g
register_entries-IsRouted names infos i (entry ∷ entries) r g =
    subst
      (λ j. IsRouted j (
        register_entries names infos (suc i) entries
          (register_entry i (names i) (infos i) entry r)))
      (omega arith)
      (register_entries-IsRouted names infos (suc i) entries _
        (register_entry-IsRouted i (names i) (infos i) entry r g))

none-IsRouted : IsRouted 0 none_registered
none-IsRouted = record {
  numbered = record { numbered = λ h hw e. cc };
  count = refl;
  routed = λ k e f. cc;
}

-- What a client and a backend rely on after discovery.
pub record IsConnected {S : Type 0} (m : Manager S) : Type 0 where
  pub handles :
      (h : ℕ) (hw : HardwareSensor)
      → lookup h m.hardware ≡ some hw
      → (hw.handle ≡ h) × (hw.info.sensor_handle ≡ h) × (h < m.next_handle)
  pub routes :
      (k : ℕ) (entry : BackendEntry)
      → get_elem? m.backends k ≡ some entry
      → Reaches k entry.local_to_global m.hardware

-- After RegisterHardwareSensors, whatever sensors the backends list: each sensor carries the handle
-- under which it stands, all handles are below the next one, and each local handle that a backend has
-- in its table leads to a sensor of that backend with that local handle.
pub register_hardware_sensors-IsConnected :
    {S : Type 0} (env : Backends) (m : Manager S) → IsConnected (register_hardware_sensors env m)
unfolding register_hardware_sensors
register_hardware_sensors-IsConnected env m =
    let g =
      register_entries-IsRouted env.get_name (env.sensors_list m.calls) 0 m.backends none_registered
        none-IsRouted in
    record { handles = g.numbered.numbered; routes = g.routed }
