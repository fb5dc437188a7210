-- ===== src/Examples/Cameras.antt =====
-- Witnesses for the camera ids and the stream planner.
use android_hardware_mainlin.Prelude.{
  ℕ, ◌≡◌, refl, ap, true, false, ◌||◌, some, List, [], ◌∷◌, ◌==◌, codes, nat_key, bytes_key,
}
use android_hardware_mainlin.Camera.CameraIdAllocator.{
  CameraIdAllocator, new_allocator, in_range, allocate, release,
}
use android_hardware_mainlin.Camera.CameraIdAllocator.Connected.{
  Cameras, IsRun, start, allocated, Tracks, IsRightId, allocate-IsRightId,
}
use android_hardware_mainlin.Camera.CameraIdAllocator.Tracking.{run-Tracks, allocate-release}
use android_hardware_mainlin.Camera.StreamPlanner.{
  PixelFormats, FormatDescription, FrameSize, new_stream_planner,
}
use android_hardware_mainlin.Camera.StreamPlanner.Outputs.{
  IsOutputList, new_stream_planner-IsOutputList,
}

-- An internal camera, and an external one with ids from 1 on.
abbrev one_camera : CameraIdAllocator
one_camera = (allocate (new_allocator 1) (codes "csi") true).1

abbrev two_cameras : CameraIdAllocator
two_cameras = (allocate one_camera (codes "usb1") false).1

abbrev connected : Cameras
connected =
    (codes "usb1", (allocate one_camera (codes "usb1") false).0)
    ∷ (codes "csi", (allocate (new_allocator 1) (codes "csi") true).0)
    ∷ []

two_cameras-IsRun : IsRun 1 two_cameras connected
two_cameras-IsRun =
    allocated one_camera ((codes "csi", (allocate (new_allocator 1) (codes "csi") true).0) ∷ [])
      (codes "usb1") false (allocated (new_allocator 1) [] (codes "csi") true start refl) refl

run-Tracks_example : Tracks two_cameras connected
run-Tracks_example = run-Tracks 1 two_cameras connected two_cameras-IsRun

allocate-IsRightId_example : IsRightId two_cameras true (allocate two_cameras (codes "csi2") true).0
allocate-IsRightId_example = allocate-IsRightId two_cameras (codes "csi2") true

usb_id : (allocate one_camera (codes "usb1") false).0 ≡ 1
unfolding allocate new_allocator
usb_id = refl

usb_in_range : in_range two_cameras 1 false ≡ true
unfolding in_range allocate new_allocator
usb_in_range = refl

allocate-release_example :
    (allocate (release two_cameras (codes "usb1")) (codes "usb1") false).0 ≡ 1
allocate-release_example =
    allocate-release 1 two_cameras connected (codes "usb1") false 1 two_cameras-IsRun
      (ap some usb_id) usb_in_range

-- Codes 1 and 2 are processed formats, 2 a compressed one, and 3 a raw one.
abbrev sample_pixels : PixelFormats
sample_pixels = record {
  is_processed = λ fourcc. fourcc == 1 || fourcc == 2;
  is_isp = λ fourcc. fourcc == 3;
  is_compressed = λ fourcc. fourcc == 2;
}

abbrev at_rate : ℕ → ℕ → ℕ → FrameSize
at_rate width height rate = record {
  width = width;
  height = height;
  intervals = record { numerator = 1; denominator = rate } ∷ [];
}

abbrev sample_formats : List FormatDescription
sample_formats =
    record { fourcc = 1; emulated = false; sizes = at_rate 640 480 30 ∷ at_rate 1280 720 10 ∷ [] }
    ∷ record { fourcc = 2; emulated = false; sizes = at_rate 1280 720 30 ∷ [] }
    ∷ []

new_stream_planner-IsOutputList_example :
    IsOutputList (new_stream_planner sample_pixels sample_formats)
new_stream_planner-IsOutputList_example =
    new_stream_planner-IsOutputList sample_pixels sample_formats
