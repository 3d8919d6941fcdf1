-- ===== src/Camera.antt =====
-- src/cctv/getFrame.cpp with src/main.cpp: a turn's picture, from the request to what the loop of
-- `routine` makes of it.
-- OpenCV is an argument: the record `OpenCv` of the operations that are used.
-- The answer of the camera's http server is the body of its reply, or `none`.
pub mod Stale
pub mod Capture
pub mod Latest
use multi_cctv_object_detect.Prelude.{
  ℕ, ℤ, pos, Bool, true, false, not, ◌||◌, List, [], ◌∷◌, Option, none, some, ◌≡◌, Bytes,
  if◌then◌else◌, Fault, Result, ok, err, ◌>>=◌,
}
use multi_cctv_object_detect.Channel.{Image, no_frame, black_frame, detected}

-- `is_black` is `cv::sum(frame) == cv::Scalar(0)`. `cv::resize` throws for an empty picture.
pub record OpenCv (Mat : Type 0) : Type 0 where
  pub is_empty : Mat → Bool
  pub is_black : Mat → Bool
  pub zeros : ℤ → ℤ → Mat
  pub imdecode : Bytes → Mat
  pub resize : Mat → ℤ → ℤ → Result Mat

-- The two pictures that a channel's loop keeps from turn to turn.
pub record Pictures (Mat : Type 0) : Type 0 where
  pub frame : Mat
  pub sub_frame : Mat

module _ {Mat : Type 0} (cv : OpenCv Mat) (width height : ℤ) where
  unfoldable pub get_frame_api : Option Bytes → Pictures Mat → Result (ℤ × Pictures Mat)
  get_frame_api none p = ok (pos 0, record p { sub_frame = cv.zeros height width })
  get_frame_api (some body) p = cv.resize (cv.imdecode body) width height >>= λ sub_frame. ok (
    pos 1,
    record {
      frame = cv.imdecode body;
      sub_frame = if cv.is_empty sub_frame then cv.zeros height width else sub_frame;
    },
  )

  -- What the loop makes of the pictures, with the classes that the network finds in one.
  unfoldable pub look : (Mat → List ℤ) → Bool → ℕ → Pictures Mat → Image
  look network running time p =
      if cv.is_empty p.frame || not running
      then no_frame
      else if cv.is_black p.frame
      then black_frame
      else detected time (network p.sub_frame)

  -- The turns of the loop while the program runs, each with the camera's answer and the time.
  unfoldable pub look_all :
      (Mat → List ℤ) → List (Option Bytes × ℕ) → Pictures Mat → Result (List Image × Pictures Mat)
  unfolding get_frame_api look
  look_all network [] p = ok ([], p)
  look_all network ((answer, time) ∷ turns) p = get_frame_api answer p >>= λ (status, p').
      look_all network turns p' >>= λ (images, p''). ok (look network true time p' ∷ images, p'')
