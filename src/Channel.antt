-- ===== src/Channel.antt =====
-- src/main.cpp: what a channel's thread keeps from frame to frame (`routine`), its call of
-- `process_channel_alarms`, and the staff report on all channels.
-- An `Image` is what the camera and the network answer for one turn of the loop. What follows the call is
-- in Labels and WebFile, the semaphores are in Semaphores.
pub mod Recent
pub mod Staff
pub mod Alarms
pub mod Labels
pub mod Placed
pub mod Semaphores
pub mod Watch
pub mod WebFile
pub mod SavePaths
pub mod WebLines
pub mod Shows
use multi_cctv_object_detect.Prelude.{
  ℕ, zero, suc, ℤ, pos, negsuc, ◌+◌, Bool, true, false, List, [], ◌∷◌, ◌++◌, map, Option, none,
  some, Bytes, codes, length, leb, ◌==ℤ◌, if◌then◌else◌, Result, ok, ◌>>=◌,
}
use multi_cctv_object_detect.Alarm.{DetectedHistoryItem}
use multi_cctv_object_detect.Mqtt.{Message, StaffEntry, StaffReport, staff_payload, publish}
use multi_cctv_object_detect.AlarmManager.{
  AlarmManager, World, Frame, staff_class_id, append_message, process_channel_alarms,
}

-- The members that the loop reads or writes.
pub record CameraChannel : Type 0 where
  pub camera_channel_id : ℤ
  pub channel_number : ℤ
  pub channel_camera_description : Bytes
  pub robot_destination : Bytes
  pub detected_class_history : List DetectedHistoryItem
  pub detected_class : List ℤ
  pub alarm_result : ℤ
  pub current_staff_count : ℕ

-- A channel once `main` has set its numbers and texts.
abbrev pub new_channel : ℤ → ℤ → Bytes → Bytes → CameraChannel
new_channel camera_channel_id channel_number description destination = record {
  camera_channel_id = camera_channel_id;
  channel_number = channel_number;
  channel_camera_description = description;
  robot_destination = destination;
  detected_class_history = [];
  detected_class = [];
  alarm_result = pos 0;
  current_staff_count = 0;
}

-- What a turn of the loop gets: no frame (or the end of the program), a black one, or the classes
-- that the network finds in it, with the time.
pub data Image : Type 0 where
  no_frame black_frame : Image
  detected : ℕ → List ℤ → Image

unfoldable pub staff_count : List ℤ → ℕ
staff_count [] = 0
staff_count (cls ∷ rest) = let n = staff_count rest in if cls ==ℤ staff_class_id then suc n else n

-- `pop_front` where 200 are reached.
abbrev pub bound_history : List DetectedHistoryItem → List DetectedHistoryItem
bound_history [] = []
bound_history (h ∷ history) = if leb 200 (length (h ∷ history)) then history else h ∷ history

abbrev pub history_item : ℕ → List ℤ → DetectedHistoryItem
history_item time classes = record { time = time; detected_classes = classes }

-- The part of a turn that comes before the alarms.
unfoldable pub observe : CameraChannel → Image → CameraChannel
observe c no_frame = record c { detected_class = [] }
observe c black_frame = record c { detected_class = [] }
observe c (detected time classes) = record c {
  detected_class = classes;
  current_staff_count = staff_count classes;
  detected_class_history =
      bound_history (c.detected_class_history ++ history_item time classes ∷ []);
}

-- The call's frame: the channel's own members, and what the call reads on the way.
abbrev pub frame_of : CameraChannel → Frame → Frame
frame_of c f = record f {
  channel_id = c.camera_channel_id;
  detected_classes = c.detected_class;
  history = c.detected_class_history;
  camera_description = c.channel_camera_description;
  robot_destination = c.robot_destination;
}

abbrev pub Turn : Type 0
Turn = CameraChannel × AlarmManager × World

abbrev alarms_of : ℕ → CameraChannel → AlarmManager → World → Frame → Result Turn
alarms_of frames_to_check c m w f =
    process_channel_alarms frames_to_check m w (frame_of c f) >>= λ (r, m', w').
    ok (record c { alarm_result = r }, m', w')

-- A turn of the loop up to the drawing.
unfoldable pub turn : ℕ → CameraChannel → AlarmManager → World → Frame → Image → Result Turn
turn frames_to_check c m w f no_frame = ok (observe c no_frame, m, w)
turn frames_to_check c m w f black_frame = ok (observe c black_frame, m, w)
turn frames_to_check c m w f (detected time classes) =
    alarms_of frames_to_check (observe c (detected time classes)) m w f

abbrev staff_entry : CameraChannel → StaffEntry
staff_entry c = record {
  camera_id = c.camera_channel_id;
  destination = c.robot_destination;
  staff_count = c.current_staff_count;
}

-- The report of a round of `staff_report_routine`, where it is sent.
abbrev pub staff_message : World → Bool → Bytes → List CameraChannel → Option Message
staff_message w is_connected timestamp channels =
    publish w.mutes w.mqtt is_connected (codes "CCTV/StaffCount")
      (staff_payload (record { entries = map staff_entry channels; timestamp = timestamp }))

-- A round of `staff_report_routine`, after its wait.
unfoldable report_staff : World → Bool → Bytes → List CameraChannel → World
report_staff w is_connected timestamp channels = record w {
  published = append_message w.published (staff_message w is_connected timestamp channels);
}
