-- ===== src/Camera/Capture.antt =====
-- src/cctv/cctv.cpp with `connectRTSP` of src/cctv/getFrame.cpp: the thread that puts a camera's frames
-- on a stack. OpenCV's capture is an argument: the record `VideoCapture` of the methods that are used,
-- over the states `V` of a capture.
use multi_cctv_object_detect.Prelude.{
  ℕ, zero, suc, ℤ, pos, negsuc, Bool, Option, none, some, Bytes, if◌then◌else◌,
}
use multi_cctv_object_detect.ThreadSafe.{ThreadSafeStack, push_stack}

-- `read` gives `none` where the method returns false. `open_accelerated` is `open` with hardware
-- acceleration.
pub record VideoCapture (V Mat : Type 0) : Type 0 where
  pub open_accelerated : Bytes → V → Bool × V
  pub open_plain : Bytes → V → Bool × V
  pub is_opened : V → Bool
  pub read : V → Option Mat × V
  pub release : V → V

-- The members of the class, with the stack that the pointer leads to.
pub record Cctv (V Mat : Type 0) : Type 0 where
  pub rtsp_url : Bytes
  pub image_stack : ThreadSafeStack Mat
  pub vicap : V

module _ {V Mat : Type 0} (cv : VideoCapture V Mat) where
  unfoldable pub connect_rtsp : Bytes → V → ℤ × V
  connect_rtsp url cap =
      let (accelerated, cap') = cv.open_accelerated url cap in
      let (plain, cap'') = cv.open_plain url cap' in
      if accelerated then (pos 1, cap') else (negsuc 0, cap'')

  -- The capture after `connect_rtsp`, whose number no caller uses.
  unfoldable pub connected : Bytes → V → V
  unfolding connect_rtsp
  connected url cap = let (status, cap') = connect_rtsp url cap in cap'

  -- The loop, with the number it returns; `none` where the rounds do not suffice.
  unfoldable pub capture : ℕ → Cctv V Mat → Option (ℤ × Cctv V Mat)
  unfolding connected
  capture zero c = none
  capture (suc rounds) c =
      let (answer, cap) = cv.read c.vicap in
      let again = connected c.rtsp_url (cv.release cap) in
      elim answer [
        | some frame ↦
            capture rounds (record c { image_stack = push_stack c.image_stack frame; vicap = cap })
        | none ↦
            let reconnected = capture rounds (record c { vicap = again }) in
            if cv.is_opened again then reconnected else some (pos 1, record c { vicap = again })
      ]

  unfoldable pub start_image_capture : ℕ → Cctv V Mat → Option (ℤ × Cctv V Mat)
  unfolding capture connected
  start_image_capture rounds c =
      let cap = connected c.rtsp_url c.vicap in
      let captured = capture rounds (record c { vicap = cap }) in
      if cv.is_opened cap then captured else some (negsuc 0, record c { vicap = cap })
