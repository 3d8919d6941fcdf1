-- ===== src/Channel/WebFile.antt =====
-- src/main.cpp: the file of a channel that the web page reads, and a turn of `routine` that writes it.
-- A text file is a path with its bytes.
use multi_cctv_object_detect.Prelude.{
  ℕ, ℤ, Bool, List, [], ◌∷◌, ◌++◌, map, Option, none, some, Bytes, bytes_eq, codes, to_string,
  fill_2, if◌then◌else◌, Result, ok, ◌>>=◌,
}
use multi_cctv_object_detect.Inference.{BBoxInfo}
use multi_cctv_object_detect.AlarmManager.{AlarmManager, World, Frame, is_channel_active}
use multi_cctv_object_detect.Channel.{CameraChannel, detected, turn}
use multi_cctv_object_detect.Channel.Labels.{Doubles, Sizes, Drawing, net_result, net_res, drawings}

abbrev pub Files : Type 0
Files = List (Bytes × Bytes)

unfoldable pub read_file : Files → Bytes → Option Bytes
read_file [] path = none
read_file ((p, text) ∷ files) path = if bytes_eq p path then some text else read_file files path

unfoldable pub write_text : Files → Bytes → Bytes → Files
write_text [] path text = (path, text) ∷ []
write_text ((p, old) ∷ files) path text =
    if bytes_eq p path then (path, text) ∷ files else (p, old) ∷ write_text files path text

unfoldable pub save_path : ℤ → Bytes
save_path camera_channel_id =
    codes "./resource/output/" ++ (fill_2 (to_string camera_channel_id) ++ codes ".txt")

-- What a turn has drawn into `sub_frame`, and the labels for the gathered data.
pub record Shown : Type 0 where
  pub drawn : List Drawing
  pub labels : Bytes

-- What `detected_class` gets of the objects.
abbrev pub classes_of : {F : Type 0} → List (BBoxInfo F) → List ℤ
classes_of results = map (λ det. det.class_id) results

-- A turn of the loop whose frame passes the tests, with the objects that the network finds; `opens` is
-- whether the file opens. No other thread's call comes between the alarms and `is_channel_active`.
module _ {F D : Type 0} (ops : Doubles D) (two_places : F → Bytes) where
  unfoldable pub show_turn :
      ℕ
      → CameraChannel
      → AlarmManager
      → World
      → Frame
      → ℕ
      → List (BBoxInfo F)
      → Sizes
      → Bool
      → Files
      → Result (CameraChannel × AlarmManager × World × Shown × Files)
  unfolding net_result net_res drawings
  show_turn frames_to_check c m w f time results s opens files =
      turn frames_to_check c m w f (detected time (classes_of results)) >>= λ (c', m', w').
      let is_alarm = is_channel_active m' c'.camera_channel_id in
      ok (
        c',
        m',
        w',
        record { drawn = drawings two_places is_alarm results; labels = net_result ops s results },
        if opens
            then write_text files (save_path c'.camera_channel_id) (net_res ops s is_alarm results)
            else files,
      )
