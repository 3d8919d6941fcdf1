-- ===== src/Earlier.antt =====
-- src/prev_main.cpp: the earlier main program, which the build leaves out: the thread that shows the
-- pictures of one camera, and the one that runs the network on them.
-- OpenCV is an argument: the record `Screen` of the operations that are used.
use multi_cctv_object_detect.Prelude.{
  ◌%◌, ◌==◌, ◌≡◌, ℤ, pos, negsuc, ◌+ℤ◌, ◌<ℤ◌, Bool, false, not, ◌&&◌, List, [], ◌∷◌, ◌++◌, Option,
  none, some, Bytes, codes, arith, if◌then◌else◌, Result, ok, ◌>>=◌, >>=-eq-ok,
}
use multi_cctv_object_detect.Inference.{Rect, BBoxInfo}

-- `black` is a picture of 900 rows and 1600 columns; `text_height` is the height that `getTextSize` gives.
pub record Screen (Mat F : Type 0) : Type 0 where
  pub is_empty : Mat → Bool
  pub black : Mat
  pub resize : Mat → ℤ → ℤ → Result Mat
  pub copy_to : Mat → Rect → Mat → Mat
  pub rectangle : Rect → Mat → Mat
  pub put_text : Bytes → ℤ → ℤ → Mat → Mat
  pub text_height : Bytes → ℤ
  pub two_places : F → Bytes

-- The global variables that the two threads share.
pub record Shared (Mat F : Type 0) : Type 0 where
  pub cctv1image : Mat
  pub g_detect1 : List (BBoxInfo F)
  pub g_canvas : Mat

abbrev roi1 : Rect
roi1 = record { left = pos 0; top = pos 0; width = pos 800; height = pos 450 }

-- `key & bit` for a `bit` of 0 or 1, as a condition.
abbrev bit_of : ℤ → Bool → Bool
bit_of (pos n) bit = n % 2 == 1 && bit
bit_of (negsuc n) bit = n % 2 == 0 && bit

-- `cv::waitKey(1) & 0xFF == 'q'`, where `==` binds tighter than `&`.
abbrev is_quit : ℤ → Bool
is_quit key = bit_of key (0xFF == b'q')

-- `0xFF == 'q'` is false.
is_quit_never : (key : ℤ) → is_quit key ≡ false
is_quit_never (pos n) = ground arith
is_quit_never (negsuc n) = ground arith

module _ {Mat F : Type 0} (cv : Screen Mat F) where
  -- A round of `consumer` with the picture that it pops, up to `imshow`.
  unfoldable show_image : Mat → Shared Mat F → Result (Shared Mat F)
  show_image image1 s =
      let taken = record s { cctv1image = image1 } in
      if not (cv.is_empty image1)
      then (cv.resize image1 (pos 800) (pos 450) >>= λ resized.
          ok (record taken { g_canvas = cv.copy_to resized roi1 s.g_canvas }))
      else ok taken

  -- The loop of `consumer`, with the pictures that it pops and what `waitKey` gives: the number that it
  -- returns, or `none` where the rounds do not suffice.
  unfoldable consumer : List (Mat × ℤ) → Shared Mat F → Result (Option ℤ × Shared Mat F)
  unfolding show_image
  consumer [] s = ok (none, s)
  consumer ((image1, key) ∷ rounds) s = show_image image1 s >>= λ s'.
      let rest = consumer rounds s' in if is_quit key then ok (some (pos 1), s') else rest

  unfoldable show_objects : List (BBoxInfo F) → Mat → Mat
  show_objects [] canvas = canvas
  show_objects (det1 ∷ objects) canvas =
      let label = det1.class_name ++ codes ": " ++ cv.two_places det1.confidence in
      let text_y =
        if det1.box.top <ℤ pos 0
        then det1.box.top +ℤ cv.text_height label +ℤ pos 5
        else det1.box.top in
      show_objects objects (cv.put_text label det1.box.left text_y (cv.rectangle det1.box canvas))

  -- A round of `inference_worker`, with what the network finds in a picture.
  unfoldable infer_round : (Mat → Result (List (BBoxInfo F))) → Shared Mat F → Result (Shared Mat F)
  unfolding show_objects
  infer_round inference s =
      let cleared = record s { g_canvas = cv.black } in
      if cv.is_empty s.cctv1image
      then ok cleared
      else inference s.cctv1image >>= λ objects.
          ok (record cleared { g_detect1 = objects; g_canvas = show_objects objects cv.black })

  -- No key ends the loop of `consumer`: it never returns, whatever the pictures and the keys.
  consumer_endless :
      (rounds : List (Mat × ℤ)) (s s' : Shared Mat F) (number : ℤ)
      → ¬ (consumer rounds s ≡ ok (some number, s'))
  unfolding consumer
  consumer_endless [] s s' number e = ground (arith, e)
  consumer_endless ((image1, key) ∷ rounds) s s' number e =
      let (s₁, shown, e₁) =
        >>=-eq-ok (show_image image1 s)
          (λ s₂. if is_quit key then ok (some (pos 1), s₂) else consumer rounds s₂) e in
      consumer_endless rounds s₁ s' number (rw (is_quit_never key) at e₁)
