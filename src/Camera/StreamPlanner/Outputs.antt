-- ===== src/Camera/StreamPlanner/Outputs.antt =====
-- interfaces/camera/mainline/device/StreamPlanner.cpp: the output sizes of the constructor.
use android_hardware_mainlin.Prelude.{
  ℕ, ◌≤◌, ◌<◌, ◌≡◌, refl, sym, ap, ◌∙◌, ◌⊎◌, inl, inr, Bool, true, false, not, ◌&&◌, ◌||◌, List, [],
  ◌∷◌, ◌++◌, arith, ltb, ◌==◌, Bool-cases, any_of, All, All-append, ℤ, ltb_ℤ, nat_key, bytes_key,
  sort_by, IsSortedBy, IsOrder, sort_by-IsSortedBy, All-sort_by, insert_sorted,
  any_of-insert_sorted, any_of-sort_by,
}
use mathlib.Core.List.{Mem, mem-cons_self, mem-cons_of_mem}
use android_hardware_mainlin.Camera.StreamPlanner.{
  PixelFormats, FormatDescription, Size, CaptureMode, OutputSize, StreamPlanner, contains_size,
  same_size, min_frame_duration_ns, is_output_size, no_duration, shortest_duration, add_output_size,
  add_output_sizes, larger_output, area, modes_of_formats, candidate_sizes, largest_size, no_size,
  new_stream_planner,
}

-- A mode that contains the size and has the frame duration.
pub record IsFedAt (modes : List CaptureMode) (size : Size) (duration : ℕ) : Type 0 where
  pub mode : CaptureMode
  pub member : Mem mode modes
  pub contains : contains_size mode.size size ≡ true
  pub duration_of : min_frame_duration_ns mode ≡ duration

fed_taken :
    (mode : CaptureMode) (rest : List CaptureMode) (size : Size) (duration : ℕ)
    → contains_size mode.size size ≡ true
    → (duration ≡ min_frame_duration_ns mode) ⊎ IsFedAt rest size duration
    → IsFedAt (mode ∷ rest) size duration
fed_taken mode rest size duration fits (inl e) = record {
  mode = mode;
  member = mem-cons_self;
  contains = fits;
  duration_of = sym e;
}
fed_taken mode rest size duration fits (inr fed) = record {
  mode = fed.mode;
  member = mem-cons_of_mem mode fed.member;
  contains = fed.contains;
  duration_of = fed.duration_of;
}

fed_passed :
    (mode : CaptureMode) (rest : List CaptureMode) (size : Size) (duration best : ℕ)
    → (duration ≡ best) ⊎ IsFedAt rest size duration
    → (duration ≡ best) ⊎ IsFedAt (mode ∷ rest) size duration
fed_passed mode rest size duration best (inl e) = inl e
fed_passed mode rest size duration best (inr fed) = inr record {
  mode = fed.mode;
  member = mem-cons_of_mem mode fed.member;
  contains = fed.contains;
  duration_of = fed.duration_of;
}

shorter : (fits : Bool) (m best d : ℕ) → (fits && ltb m best) ≡ true → d ≤ m → d ≤ best
shorter fits m best d h k = ground arith

longer : (m best d : ℕ) → ltb m best ≡ false → d ≤ best → d ≤ m
longer m best d h k = ground arith

shortest_duration-least :
    (size : Size) (modes : List CaptureMode) (best duration : ℕ)
    → shortest_duration best size modes ≡ duration
    → ((duration ≡ best) ⊎ IsFedAt modes size duration)
      × (duration ≤ best)
      × All
          (λ mode. contains_size mode.size size ≡ true → duration ≤ min_frame_duration_ns mode)
          modes
unfolding shortest_duration
shortest_duration-least size [] best duration e = (inl (sym e), omega arith, tt)
shortest_duration-least size (mode ∷ rest) best duration e =
    elim (Bool-cases (contains_size mode.size size && ltb (min_frame_duration_ns mode) best)) [
      | inl taken ↦
          let later =
            shortest_duration-least size rest (min_frame_duration_ns mode) duration
              (rw taken at e) in
          (
            inr (fed_taken mode rest size duration (ground (arith, taken)) later.0),
            shorter (contains_size mode.size size) _ _ _ taken later.1,
            ((λ fits. later.1), later.2),
          )
      | inr passed ↦
          let later = shortest_duration-least size rest best duration (rw passed at e) in
          (
            fed_passed mode rest size duration best later.0,
            later.1,
            ((λ fits. longer _ _ _ (rw fits at passed) later.1), later.2),
          )
    ]

-- What is offered: the frame duration is the shortest of the modes that contain the size, of which
-- there is one, and is positive.
pub record IsOffered (modes : List CaptureMode) (output : OutputSize) : Type 0 where
  pub fed : IsFedAt modes output.size output.min_frame_duration_ns
  pub shortest :
      All
        (λ mode.
          contains_size mode.size output.size ≡ true
          → output.min_frame_duration_ns ≤ min_frame_duration_ns mode)
        modes
  pub positive : 0 < output.min_frame_duration_ns

abbrev pub SizesDiffer : List OutputSize → Type 0
SizesDiffer [] = Unit
SizesDiffer (output ∷ rest) = (is_output_size rest output.size ≡ false) × SizesDiffer rest

same_size_symm : (a b : Size) → same_size a b ≡ same_size b a
unfolding same_size
same_size_symm a b = ground arith

or_assoc : (a b c : Bool) → ((a || b) || c) ≡ (a || (b || c))
or_assoc true b c = refl
or_assoc false b c = refl

or_left : (a b : Bool) → (a || b) ≡ false → a ≡ false
or_left a b h = ground (arith, h)

or_right : (a b : Bool) → (a || b) ≡ false → b ≡ false
or_right a b h = ground (arith, h)

is_output_size-append :
    (outputs : List OutputSize) (new : OutputSize) (size : Size)
    → is_output_size (outputs ++ new ∷ []) size
      ≡ (is_output_size outputs size || same_size new.size size)
unfolding is_output_size
is_output_size-append [] new size = ground arith
is_output_size-append (output ∷ rest) new size =
    ap (λ b. same_size output.size size || b) (is_output_size-append rest new size)
    ∙ sym (
        or_assoc (same_size output.size size) (any_of (λ x. same_size x.size size) rest)
          (same_size new.size size))

append-SizesDiffer :
    (outputs : List OutputSize) (new : OutputSize)
    → is_output_size outputs new.size ≡ false
    → SizesDiffer outputs
    → SizesDiffer (outputs ++ new ∷ [])
unfolding is_output_size
append-SizesDiffer [] new h k = (refl, tt)
append-SizesDiffer (output ∷ rest) new h k = (
  is_output_size-append rest new output.size
      ∙ rw (k.0, same_size_symm new.size output.size) (or_left _ (is_output_size rest new.size) h),
  append-SizesDiffer rest new (or_right (same_size output.size new.size) _ h) k.1,
)

fed_unless_none :
    (modes : List CaptureMode) (size : Size) (duration : ℕ)
    → (duration == no_duration) ≡ false
    → (duration ≡ no_duration) ⊎ IsFedAt modes size duration
    → IsFedAt modes size duration
fed_unless_none modes size duration h (inl e) = absurd (ground (arith, e))
fed_unless_none modes size duration h (inr fed) = fed

record IsGood (modes : List CaptureMode) (outputs : List OutputSize) : Type 0 where
  offered : All (IsOffered modes) outputs
  differ : SizesDiffer outputs

add_output_size-IsGood :
    (modes : List CaptureMode) (size : Size) (outputs : List OutputSize)
    → IsGood modes outputs
    → IsGood modes (add_output_size modes size outputs)
unfolding add_output_size
add_output_size-IsGood modes size outputs good =
    let best = shortest_duration no_duration size modes in
    let least = shortest_duration-least size modes no_duration best refl in
    elim (Bool-cases (is_output_size outputs size || best == no_duration || best == 0)) [
      | inl skipped ↦ rw skipped good
      | inr added ↦ rw added record {
        offered = All-append _ outputs _ good.offered (
          record {
            fed = fed_unless_none modes size best (ground (arith, added)) least.0;
            shortest = least.2;
            positive = ground (arith, added);
          },
          tt,
        );
        differ = append-SizesDiffer outputs _ (ground (arith, added)) good.differ;
      }
    ]

add_output_sizes-IsGood :
    (modes : List CaptureMode) (sizes : List Size) (outputs : List OutputSize)
    → IsGood modes outputs
    → IsGood modes (add_output_sizes modes sizes outputs)
unfolding add_output_sizes
add_output_sizes-IsGood modes [] outputs good = good
add_output_sizes-IsGood modes (size ∷ rest) outputs good =
    add_output_sizes-IsGood modes rest (add_output_size modes size outputs)
      (add_output_size-IsGood modes size outputs good)

insert_sorted-SizesDiffer :
    (output : OutputSize) (outputs : List OutputSize)
    → is_output_size outputs output.size ≡ false
    → SizesDiffer outputs
    → SizesDiffer (insert_sorted larger_output output outputs)
unfolding is_output_size
insert_sorted-SizesDiffer output [] h k = (refl, tt)
insert_sorted-SizesDiffer output (other ∷ rest) h k =
    elim (Bool-cases (larger_output other output)) [
      | inl after ↦ rw after (
        any_of-insert_sorted larger_output (λ o. same_size o.size other.size) output rest
            ∙ rw
                (
                  same_size_symm output.size other.size,
                  or_left (same_size other.size output.size) (is_output_size rest output.size) h,
                )
                k.0,
        insert_sorted-SizesDiffer output rest
            (or_right (same_size other.size output.size) (is_output_size rest output.size) h) k.1,
      )
      | inr before ↦ rw before (h, k)
    ]

sort-SizesDiffer :
    (outputs : List OutputSize) → SizesDiffer outputs → SizesDiffer (sort_by larger_output outputs)
unfolding is_output_size
sort-SizesDiffer [] h = tt
sort-SizesDiffer (output ∷ rest) h =
    insert_sorted-SizesDiffer output (sort_by larger_output rest)
      (any_of-sort_by larger_output (λ o. same_size o.size output.size) rest ∙ h.0)
      (sort-SizesDiffer rest h.1)

larger_asymm : (x y : OutputSize) → larger_output y x ≡ true → larger_output x y ≡ false
unfolding larger_output
larger_asymm x y h = ground arith

larger_trans :
    (a b c w v u : ℤ)
    → (ltb_ℤ a b || not (ltb_ℤ b a) && ltb_ℤ w v) ≡ false
    → (ltb_ℤ b c || not (ltb_ℤ c b) && ltb_ℤ v u) ≡ false
    → (ltb_ℤ a c || not (ltb_ℤ c a) && ltb_ℤ w u) ≡ false
larger_trans a b c w v u h k = ground arith

larger_output-IsOrder : IsOrder larger_output
unfolding larger_output
larger_output-IsOrder = record {
  less_asymm = λ x y h. larger_asymm x y h;
  less_trans = λ x y z h k.
      larger_trans (area x.size) (area y.size) (area z.size) x.size.width y.size.width z.size.width
        h k;
}

-- The sizes that a camera offers: each can be produced, at its frame duration and no shorter one; no
-- two are the same; and the larger areas stand first.
pub record IsOutputList (planner : StreamPlanner) : Type 0 where
  pub offered : All (IsOffered planner.modes) planner.output_sizes
  pub differ : SizesDiffer planner.output_sizes
  pub ordered : IsSortedBy larger_output planner.output_sizes

-- Whatever formats a device lists, the planner offers each output size once, the largest areas first,
-- and each with a positive frame duration that some capture mode containing the size has and that no
-- other one containing it undercuts.
pub new_stream_planner-IsOutputList :
    (pixels : PixelFormats) (formats : List FormatDescription)
    → IsOutputList (new_stream_planner pixels formats)
unfolding new_stream_planner
new_stream_planner-IsOutputList pixels formats =
    let modes = modes_of_formats pixels formats in
    let good =
      add_output_sizes-IsGood modes (candidate_sizes modes (largest_size no_size modes)) []
        record { offered = tt; differ = tt } in
    let outputs = add_output_sizes modes (candidate_sizes modes (largest_size no_size modes)) [] in
    record {
      offered = All-sort_by larger_output _ outputs good.offered;
      differ = sort-SizesDiffer outputs good.differ;
      ordered = sort_by-IsSortedBy larger_output larger_output-IsOrder outputs;
    }
