-- ===== src/Routine.antt =====
-- src/main.cpp: `routine` as a whole, the loop of one channel's thread, put together from the request for
-- a picture, the network, the alarms, the label files and the gathered data.
-- What stands in the global variables at a turn, which the other threads change too, comes with the turn.
-- The folder and the files are those that this thread writes. The semaphores are in Channel/Semaphores.
pub mod Ends
pub mod Thread
use multi_cctv_object_detect.Prelude.{
  ℕ, ℤ, Bool, not, ◌||◌, List, [], ◌∷◌, Option, none, some, Bytes, Result, ok, ◌>>=◌, if◌then◌else◌,
}
use multi_cctv_object_detect.Inference.{BBoxInfo}
use multi_cctv_object_detect.AlarmManager.{AlarmManager, World, Frame}
use multi_cctv_object_detect.Channel.{CameraChannel, no_frame, black_frame, observe}
use multi_cctv_object_detect.Channel.Labels.{Doubles, Sizes}
use multi_cctv_object_detect.Channel.WebFile.{Files, show_turn}
use multi_cctv_object_detect.Camera.{OpenCv, Pictures, get_frame_api}
use multi_cctv_object_detect.DataSave.{Entry}
use multi_cctv_object_detect.DataSave.Gather.{Gathering, gather}

-- What a turn meets: the camera's answer, the second reading of `g_running`, the time, the manager and the
-- world, what the call of the manager reads, whether `create_directories` throws, whether the web page's file
-- opens, whether `cv::imwrite` throws for its picture, and what is gathered.
pub record Round : Type 0 where
  pub answer : Option Bytes
  pub still_running : Bool
  pub time : ℕ
  pub manager : AlarmManager
  pub world : World
  pub frame : Frame
  pub folder_made : Result (Unit {0})
  pub opens : Bool
  pub picture_written : Result (Unit {0})
  pub gathering : Gathering

-- What the thread keeps from turn to turn.
pub record Routine (Mat : Type 0) : Type 0 where
  pub channel : CameraChannel
  pub pictures : Pictures Mat
  pub files : Files
  pub folder : List Entry

-- `network` is `inference` on a picture, where it has no fault.
module _ {Mat F D : Type 0} (cv : OpenCv Mat) (ops : Doubles D) (two_places : F → Bytes)
    (network : Mat → List (BBoxInfo F)) (sizes : Pictures Mat → Sizes)
    (sort : List (Bytes × ℕ) → List (Bytes × ℕ)) (throws : Bytes → Bool) (width height : ℤ)
    (frames_to_check : ℕ) where
  -- The rest of a turn whose frame passes the tests. What is written before a throw is not kept: it ends the
  -- program.
  unfoldable pub found_turn : Round → Routine Mat → Pictures Mat → Result (Routine Mat)
  unfolding show_turn gather
  found_turn r s pictures =
      show_turn ops two_places frames_to_check s.channel r.manager r.world r.frame r.time
        (network pictures.sub_frame) (sizes pictures) r.opens s.files
      >>= λ (c', m', w', shown, files'). r.folder_made >>= λ made. r.picture_written >>= λ written.
          gather sort throws s.folder r.gathering >>= λ folder.
          ok (record { channel = c'; pictures = pictures; files = files'; folder = folder })

  unfoldable pub routine_turn : Round → Routine Mat → Result (Routine Mat)
  unfolding get_frame_api found_turn observe
  routine_turn r s = get_frame_api cv width height r.answer s.pictures >>= λ (status, pictures).
      if cv.is_empty pictures.frame || not r.still_running
      then ok (record s { channel = observe s.channel no_frame; pictures = pictures })
      else if cv.is_black pictures.frame
      then ok (record s { channel = observe s.channel black_frame; pictures = pictures })
      else found_turn r s pictures

  -- The loop, with the first reading of `g_running` at each turn; `none` where the turns do not suffice.
  unfoldable pub routine : List (Bool × Round) → Routine Mat → Result (Option (Routine Mat))
  unfolding routine_turn
  routine [] s = ok none
  routine ((running, r) ∷ rounds) s =
      let turns = (routine_turn r s >>= λ s'. routine rounds s') in
      if running then turns else ok (some s)
