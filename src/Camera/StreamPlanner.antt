-- ===== src/Camera/StreamPlanner.antt =====
-- interfaces/camera/mainline/device/StreamPlanner.cpp and StreamPlanner.h, with Fraction and
-- FormatDescription of v4l2/VideoDevice.h. What the tests of a pixel format answer rests on constants
-- of linux/videodev2.h: a parameter (PixelFormats).
use android_hardware_mainlin.Prelude.{
  ℕ, zero, suc, ◌+◌, ◌-◌, ◌*◌, ◌/◌, ◌%◌, ◌^◌, ◌≤◌, ◌<◌, bit_and, bit_or, String, ◌≡◌, refl, sym, ap,
  subst, ◌∙◌, ap₂, subst₂, ◌≢◌, ◌↔◌, ◌⊎◌, inl, inr, Bool, true, false, not, ◌&&◌, ◌||◌, Option,
  none, some, List, [], ◌∷◌, ◌++◌, map, append-nil, append_assoc, arith, ltb, leb, ◌==◌,
  if◌then◌else◌, ==_iff, ==_refl, Bool-cases, Option-cases, is_some, get_or_else, length,
  length-append, get_elem?, is_empty, any_of, find_if, All, All-append, All-mono, ℤ, pos, negsuc,
  pos_part, neg_part, sub_ℕ, ◌+ℤ◌, ◌-ℤ◌, ◌*ℤ◌, ◌≤ℤ◌, ◌<ℤ◌, ltb_ℤ, ◌==ℤ◌, ==ℤ_iff, min_ℤ, Bytes,
  codes, bytes_eq, bytes_eq_iff, Key, nat_key, bytes_key, lookup, insert, erase, lookup-insert,
  lookup-erase, contains, AndroidBase, SplitsAtEach, ◌>>=◌, ◌>>◌, guard, bit_and-mask, bit_and-flag,
  bit_or-high_low, bit_or-low_high, pow-pos, two_pow-suc, two_pow-add, mod_unique, sort_by,
  IsSortedBy, IsOrder, sort_by-perm, sort_by-IsSortedBy, All-sort_by, OnSome, OnSome-mono, Holds,
  >>=-Holds, guard-Holds, Holds-some, OnSome-some, mul_ℤ, max_ℤ,
}
pub mod Best
pub mod Plans
pub mod Outputs

pub record PixelFormats : Type 0 where
  pub is_processed : ℕ → Bool
  pub is_isp : ℕ → Bool
  pub is_compressed : ℕ → Bool

pub record Fraction : Type 0 where
  pub numerator : ℕ
  pub denominator : ℕ

-- Fraction::ToNanoseconds; the product of two 32-bit numbers fits 64 bits.
unfoldable pub to_nanoseconds : Fraction → ℕ
to_nanoseconds f =
    if f.numerator == 0 || f.denominator == 0 then 0 else f.numerator * 1000000000 / f.denominator

pub record FrameSize : Type 0 where
  pub width : ℕ
  pub height : ℕ
  pub intervals : List Fraction

pub record FormatDescription : Type 0 where
  pub fourcc : ℕ
  pub emulated : Bool
  pub sizes : List FrameSize

pub record Size : Type 0 where
  pub width : ℤ
  pub height : ℤ

abbrev pub no_size : Size
no_size = record { width = pos 0; height = pos 0 }

unfoldable pub area : Size → ℤ
area size = mul_ℤ size.width size.height

unfoldable pub contains_size : Size → Size → Bool
contains_size size other =
    not (ltb_ℤ size.width other.width) && not (ltb_ℤ size.height other.height)

unfoldable pub same_size : Size → Size → Bool
same_size a b = (a.width ==ℤ b.width) && (a.height ==ℤ b.height)

pub record CaptureMode : Type 0 where
  pub fourcc : ℕ
  pub size : Size
  pub emulated : Bool
  pub intervals : List Fraction

unfoldable pub min_frame_duration_ns : CaptureMode → ℕ
unfolding to_nanoseconds
min_frame_duration_ns mode = elim mode.intervals [
  | [] ↦ 0
  | interval ∷ rest ↦ to_nanoseconds interval
]

pub record OutputSize : Type 0 where
  pub size : Size
  pub min_frame_duration_ns : ℕ

pub record StreamPlanner : Type 0 where
  pub modes : List CaptureMode
  pub output_sizes : List OutputSize
  pub max_size : Size

-- static_cast<int32_t> of a uint32_t.
unfoldable pub to_int32 : ℕ → ℤ
to_int32 n = if ltb n (2 ^ 31) then pos n else negsuc (2 ^ 32 - n - 1)

unfoldable pub skips_frame_size : FrameSize → Bool
skips_frame_size size = size.width == 0 || size.height == 0 || is_empty size.intervals

unfoldable pub mode_of : FormatDescription → FrameSize → CaptureMode
unfolding to_int32
mode_of format frame_size = record {
  fourcc = format.fourcc;
  size = record { width = to_int32 frame_size.width; height = to_int32 frame_size.height };
  emulated = format.emulated;
  intervals = frame_size.intervals;
}

unfoldable pub modes_of_sizes : FormatDescription → List FrameSize → List CaptureMode
unfolding skips_frame_size mode_of
modes_of_sizes format [] = []
modes_of_sizes format (size ∷ rest) =
    let more = modes_of_sizes format rest in
    if skips_frame_size size then more else mode_of format size ∷ more

unfoldable pub modes_of_formats : PixelFormats → List FormatDescription → List CaptureMode
unfolding modes_of_sizes
modes_of_formats pixels [] = []
modes_of_formats pixels (format ∷ rest) =
    let more = modes_of_formats pixels rest in
    if not (pixels.is_processed format.fourcc) && not (pixels.is_isp format.fourcc)
    then more
    else modes_of_sizes format format.sizes ++ more

unfoldable pub largest_size : Size → List CaptureMode → Size
unfolding area
largest_size best [] = best
largest_size best (mode ∷ rest) =
    largest_size (if ltb_ℤ (area best) (area mode.size) then mode.size else best) rest

abbrev pub size_of : ℕ → ℕ → Size
size_of width height = record { width = pos width; height = pos height }

-- kStandardSizes.
abbrev pub standard_sizes : List Size
standard_sizes =
    size_of 1920 1080 ∷ size_of 1280 720 ∷ size_of 640 480 ∷ size_of 320 240 ∷ size_of 176 144 ∷ []

unfoldable pub fitting : Size → List Size → List Size
unfolding contains_size
fitting max_size [] = []
fitting max_size (standard ∷ rest) =
    let more = fitting max_size rest in
    if contains_size max_size standard then standard ∷ more else more

unfoldable pub is_output_size : List OutputSize → Size → Bool
unfolding same_size
is_output_size output_sizes size = any_of (λ output. same_size output.size size) output_sizes

-- std::numeric_limits<int64_t>::max().
abbrev pub no_duration : ℕ
no_duration = 0x7fffffffffffffff

unfoldable pub shortest_duration : ℕ → Size → List CaptureMode → ℕ
unfolding contains_size min_frame_duration_ns
shortest_duration best size [] = best
shortest_duration best size (mode ∷ rest) =
    shortest_duration
      (if contains_size mode.size size && ltb (min_frame_duration_ns mode) best
        then min_frame_duration_ns mode
        else best)
      size rest

unfoldable pub add_output_size : List CaptureMode → Size → List OutputSize → List OutputSize
unfolding is_output_size shortest_duration
add_output_size modes size output_sizes =
    let best = shortest_duration no_duration size modes in
    if is_output_size output_sizes size || best == no_duration || best == 0
    then output_sizes
    else output_sizes ++ record { size = size; min_frame_duration_ns = best } ∷ []

unfoldable pub add_output_sizes : List CaptureMode → List Size → List OutputSize → List OutputSize
unfolding add_output_size
add_output_sizes modes [] output_sizes = output_sizes
add_output_sizes modes (size ∷ rest) output_sizes =
    add_output_sizes modes rest (add_output_size modes size output_sizes)

-- The comparison of the sort: the larger area first, then the larger width.
unfoldable pub larger_output : OutputSize → OutputSize → Bool
unfolding area
larger_output a b =
    ltb_ℤ (area b.size) (area a.size)
    || not (ltb_ℤ (area a.size) (area b.size)) && ltb_ℤ b.size.width a.size.width

unfoldable pub candidate_sizes : List CaptureMode → Size → List Size
unfolding fitting
candidate_sizes modes max_size = map (λ mode. mode.size) modes ++ fitting max_size standard_sizes

-- The constructor.
unfoldable pub new_stream_planner : PixelFormats → List FormatDescription → StreamPlanner
unfolding modes_of_formats largest_size candidate_sizes add_output_sizes larger_output
new_stream_planner pixels formats =
    let modes = modes_of_formats pixels formats in
    let max_size = largest_size no_size modes in
    record {
      modes = modes;
      output_sizes =
          sort_by larger_output (add_output_sizes modes (candidate_sizes modes max_size) []);
      max_size = max_size;
    }

unfoldable pub needed_size : Size → List Size → Size
needed_size needed [] = needed
needed_size needed (output ∷ rest) =
    needed_size
      (record {
        width = max_ℤ needed.width output.width;
        height = max_ℤ needed.height output.height;
      })
      rest

-- kPreferredFrameDurationNs.
abbrev pub preferred_frame_duration_ns : ℕ
preferred_frame_duration_ns = 33333333

unfoldable pub score_duration : CaptureMode → ℕ
unfolding min_frame_duration_ns
score_duration mode =
    if ltb (min_frame_duration_ns mode) preferred_frame_duration_ns
    then preferred_frame_duration_ns
    else min_frame_duration_ns mode

-- One step of the comparison of tuples.
abbrev pub then_less : Bool → Bool → Bool → Bool
then_less less greater rest = less || not greater && rest

-- `score(a) < score(b)`.
unfoldable pub better_score : PixelFormats → CaptureMode → CaptureMode → Bool
unfolding score_duration area
better_score pixels a b =
    then_less (ltb (score_duration a) (score_duration b))
      (ltb (score_duration b) (score_duration a))
      (then_less (ltb_ℤ (area a.size) (area b.size)) (ltb_ℤ (area b.size) (area a.size)) (
        then_less (not (pixels.is_isp a.fourcc) && pixels.is_isp b.fourcc)
          (not (pixels.is_isp b.fourcc) && pixels.is_isp a.fourcc)
          (then_less (not (pixels.is_compressed a.fourcc) && pixels.is_compressed b.fourcc)
            (not (pixels.is_compressed b.fourcc) && pixels.is_compressed a.fourcc)
            (then_less (not a.emulated && b.emulated) (not b.emulated && a.emulated)
              (ltb a.fourcc b.fourcc)))))

abbrev pub improves : (CaptureMode → CaptureMode → Bool) → CaptureMode → Option CaptureMode → Bool
improves better mode none = true
improves better mode (some best) = better mode best

unfoldable pub best_mode :
    (CaptureMode → CaptureMode → Bool)
    → Size
    → Option CaptureMode
    → List CaptureMode
    → Option CaptureMode
unfolding contains_size
best_mode better needed best [] = best
best_mode better needed best (mode ∷ rest) =
    best_mode better needed
      (if contains_size mode.size needed && improves better mode best then some mode else best) rest

unfoldable pub plan : PixelFormats → StreamPlanner → List Size → Option CaptureMode
unfolding best_mode needed_size better_score
plan pixels planner outputs =
    best_mode (better_score pixels) (needed_size no_size outputs) none planner.modes
