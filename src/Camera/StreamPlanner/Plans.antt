-- ===== src/Camera/StreamPlanner/Plans.antt =====
-- interfaces/camera/mainline/device/StreamPlanner.cpp: StreamPlanner::Plan.
use android_hardware_mainlin.Prelude.{
  ◌≡◌, true, false, Option, none, some, List, All, nat_key, bytes_key,
}
use mathlib.Core.List.{Mem}
use android_hardware_mainlin.Camera.StreamPlanner.{
  PixelFormats, Size, CaptureMode, StreamPlanner, contains_size, no_size, better_score,
}

-- The mode can feed all the outputs; a size that is no size at all, because its conversion to int32_t
-- has left the range, feeds nothing.
pub record Serves (mode : CaptureMode) (outputs : List Size) : Type 0 where
  pub is_size : contains_size mode.size no_size ≡ true
  pub contains_all : All (λ output. contains_size mode.size output ≡ true) outputs

-- What StreamPlanner::Plan may return.
abbrev pub IsPlan : PixelFormats → StreamPlanner → List Size → Option CaptureMode → Type 0
IsPlan pixels planner outputs none = All (λ mode. ¬ (Serves mode outputs)) planner.modes
IsPlan pixels planner outputs (some best) =
    Mem best planner.modes
    × Serves best outputs
    × All (λ mode. Serves mode outputs → better_score pixels mode best ≡ false) planner.modes
