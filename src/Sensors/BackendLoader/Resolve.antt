-- ===== src/Sensors/BackendLoader/Resolve.antt =====
-- What BackendLoader.cpp resolves and keeps open.
use android_hardware_mainlin.Prelude.{
  ℕ, ◌+◌, ◌≡◌, refl, inl, inr, Bool, false, Option, none, some, List, [], ◌∷◌, ◌==◌, if◌then◌else◌,
  Bool-cases, is_empty, Bytes, nat_key, bytes_key, AndroidBase,
}
use android_hardware_mainlin.Sensors.Settings.{Environment, Settings}
use android_hardware_mainlin.Sensors.BackendLoader.{
  LoadedBackend, LinkerCall, opened, closed, expand_tokens, resolve_backend_list, configured_list,
}

abbrev one_if : Bool → ℕ
one_if b = if b then 1 else 0

-- How often dlopen gave a handle, and how often the handle was closed.
abbrev pub opens : ℕ → List LinkerCall → ℕ
opens h [] = 0
opens h (opened path none ∷ log) = opens h log
opens h (opened path (some handle) ∷ log) = one_if (handle == h) + opens h log
opens h (closed handle ∷ log) = opens h log

abbrev pub closes : ℕ → List LinkerCall → ℕ
closes h [] = 0
closes h (opened path handle ∷ log) = closes h log
closes h (closed handle ∷ log) = one_if (handle == h) + closes h log

abbrev held : ℕ → Option ℕ → ℕ
held h none = 0
held h (some handle) = one_if (handle == h)

abbrev found_handle : ℕ → Option (Bytes × ℕ) → ℕ
found_handle h none = 0
found_handle h (some (path, handle)) = one_if (handle == h)

abbrev loaded_handle : ℕ → Option LoadedBackend → ℕ
loaded_handle h none = 0
loaded_handle h (some b) = held h b.dl_handle

abbrev handles : ℕ → List LoadedBackend → ℕ
handles h [] = 0
handles h (b ∷ bs) = held h b.dl_handle + handles h bs

module _ (h : ℕ) where
  -- The handle is open `n` times more in the second log.
  abbrev Opens : ℕ → List LinkerCall → List LinkerCall → Type 0
  Opens n log log' = opens h log' + closes h log ≡ opens h log + closes h log' + n

-- The list of libraries is never empty, whatever the setting and the build say.
pub resolve_backend_list_lem :
    (base : AndroidBase) (env : Environment) (s : Settings) (custom : Bytes)
    → is_empty (resolve_backend_list base env s custom) ≡ false
unfolding resolve_backend_list
resolve_backend_list_lem base env s custom =
    elim (Bool-cases (
      is_empty (
        if is_empty (configured_list env s custom)
        then []
        else expand_tokens base (base.split (configured_list env s custom) 44)))) [
          | inl nothing ↦ rw nothing refl
          | inr names ↦ rw names names
        ]
