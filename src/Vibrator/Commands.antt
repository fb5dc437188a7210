-- ===== src/Vibrator/Commands.antt =====
-- interfaces/vibrator/mainline/Vibrator.cpp: what the commands leave on the input device.
use android_hardware_mainlin.Prelude.{
  ℕ, ◌≡◌, refl, ap, ◌∙◌, Bool, true, false, not, ◌||◌, Option, none, some, List, [], ◌∷◌, ◌++◌,
  arith, ◌==◌, if◌then◌else◌, ==_refl, length, ℤ, pos, negsuc, pos_part, nat_key, bytes_key,
  if_holds,
}
use android_hardware_mainlin.Vibrator.State.{
  FloatOps, Device, Vibrator, Command, upload_command, play_command, stop_command, erase_command,
}
use android_hardware_mainlin.Vibrator.Device.{
  below_zero, to_uint16, stop_effect, uploaded, upload_effect, play_effect, erase_effect,
}

abbrev drop_id : ℕ → List ℕ → List ℕ
drop_id id [] = []
drop_id id (other ∷ ids) = let rest = drop_id id ids in if other == id then rest else other ∷ rest

abbrev after_command : List ℕ → Command → List ℕ
after_command ids (upload_command id length magnitude) = id ∷ ids
after_command ids (play_command code) = ids
after_command ids (stop_command code) = ids
after_command ids (erase_command id) = drop_id id ids

-- The effects that the commands leave on the device.
abbrev pub loaded : List ℕ → List Command → List ℕ
loaded ids [] = ids
loaded ids (command ∷ commands) = loaded (after_command ids command) commands

loaded-append :
    (ids : List ℕ) (commands : List Command) (command : Command)
    → loaded ids (commands ++ command ∷ []) ≡ after_command (loaded ids commands) command
loaded-append ids [] command = refl
loaded-append ids (first ∷ commands) command =
    loaded-append (after_command ids first) commands command

abbrev pub last_ids : ℤ → List ℕ
last_ids (pos id) = id ∷ []
last_ids (negsuc n) = []

-- The device holds the last effect, and no other.
pub record HoldsLast (v : Vibrator) : Type 0 where
  pub one_loaded : loaded [] v.commands ≡ last_ids v.last_effect_id

abbrev pub NothingLoaded : Vibrator → Type 0
NothingLoaded v = loaded [] v.commands ≡ []

abbrev pub HoldsAfter : Vibrator × Bool → Type 0
HoldsAfter result = HoldsLast result.0

drop_only : (id : ℕ) → drop_id id (id ∷ []) ≡ []
drop_only id = rw (==_refl id) refl

erased_last :
    (last : ℤ) (code : ℕ) (commands : List Command)
    → below_zero last ≡ false
    → loaded [] commands ≡ last_ids last
    → loaded [] ((commands ++ stop_command code ∷ []) ++ erase_command (pos_part last) ∷ []) ≡ []
erased_last (negsuc n) code commands h k = absurd (ground arith)
erased_last (pos id) code commands h k =
    rw
      (
        loaded-append [] (commands ++ stop_command code ∷ []) (erase_command id),
        loaded-append [] commands (stop_command code),
        k,
      )
      (drop_only id)

pub stop_effect-HoldsLast : (v : Vibrator) → HoldsLast v → HoldsLast (stop_effect v)
unfolding stop_effect erase_effect
stop_effect-HoldsLast v h =
    if_holds HoldsLast (not v.has_device || below_zero v.last_effect_id) (λ idle. h)
      (λ busy. record {
        one_loaded =
            if_holds NothingLoaded v.has_device
              (λ there.
                erased_last v.last_effect_id (to_uint16 v.last_effect_id) v.commands
                  (ground (arith, busy)) h.one_loaded)
              (λ missing. absurd (ground (arith, busy, missing)));
      })

no_ids : (last : ℤ) → below_zero last ≡ true → last_ids last ≡ []
no_ids (pos id) h = absurd (ground arith)
no_ids (negsuc n) h = refl

-- With a device, nothing is loaded once the last effect is stopped.
stop_effect-none :
    (v : Vibrator) → v.has_device ≡ true → HoldsLast v → loaded [] (stop_effect v).commands ≡ []
unfolding stop_effect erase_effect
stop_effect-none v there h =
    if_holds NothingLoaded (not v.has_device || below_zero v.last_effect_id)
      (λ idle. h.one_loaded ∙ no_ids v.last_effect_id (ground (arith, idle, there)))
      (λ busy.
        if_holds NothingLoaded v.has_device
          (λ there.
            erased_last v.last_effect_id (to_uint16 v.last_effect_id) v.commands
              (ground (arith, busy)) h.one_loaded)
          (λ missing. absurd (ground (arith, busy, missing))))

uploaded-HoldsLast :
    (v : Vibrator) (length magnitude : ℕ) (id : Option ℕ)
    → NothingLoaded v
    → HoldsLast v
    → HoldsAfter (uploaded v length magnitude id)
uploaded-HoldsLast v length magnitude none k h = h
uploaded-HoldsLast v length magnitude (some id) k h = record {
  one_loaded = loaded-append [] v.commands (upload_command id length magnitude) ∙ ap (◌∷◌ id) k;
}

pub upload_effect-HoldsLast :
    (ops : FloatOps) (device : Device) (v : Vibrator) (duration_ms : ℤ) (amplitude : ℕ)
    → HoldsLast v
    → HoldsLast (upload_effect ops device v duration_ms amplitude).0
unfolding upload_effect
upload_effect-HoldsLast ops device v duration_ms amplitude h =
    if_holds HoldsAfter (not v.has_device) (λ missing. h)
      (λ there.
        uploaded-HoldsLast (stop_effect v) _ _ _ (stop_effect-none v (ground (arith, there)) h)
          (stop_effect-HoldsLast v h))

pub play_effect-HoldsLast : (v : Vibrator) → HoldsLast v → HoldsLast (play_effect v)
unfolding play_effect
play_effect-HoldsLast v h =
    if_holds HoldsLast v.has_device
      (λ there. record { one_loaded = loaded-append [] v.commands (play_command _) ∙ h.one_loaded })
      (λ missing. h)
