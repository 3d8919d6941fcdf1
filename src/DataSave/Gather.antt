-- ===== src/DataSave/Gather.antt =====
-- src/main.cpp with include/data_save/directory.h: the pictures and labels that `routine` gathers in the
-- channel's folder.
use multi_cctv_object_detect.Prelude.{
  ℕ, ℤ, ◌*◌, ◌++◌, codes, to_string, Bool, false, ◌||◌, List, [], ◌∷◌, Option, none, some, Bytes,
  bytes_eq, ltb, Result, ok, ◌>>=◌, if◌then◌else◌,
}
use multi_cctv_object_detect.AlarmManager.{second}
use multi_cctv_object_detect.TimeStamp.{Tm, time_stamp}
use multi_cctv_object_detect.DataSave.{Entry, Directory, delete_oldest_file_threshold}

abbrev pub total_data_per_channel : ℕ
total_data_per_channel = 9999

abbrev pub duration_between_data : ℕ
duration_between_data = 300

-- The two files of a turn: the picture and its labels.
pub data Gathered : Type 0 where
  picture labels : Gathered

abbrev pub extension_of : Gathered → Bytes
extension_of picture = codes ".jpg"
extension_of labels = codes ".txt"

-- The path of a file, with the name by `time_stamp` and the folder by the channel's number.
unfoldable pub gathered_path : Bytes → ℤ → Tm → Gathered → Bytes
gathered_path data_gathering_point camera_channel_id t g =
    data_gathering_point
    ++ b'/' ∷ (to_string camera_channel_id ++ b'/' ∷ (time_stamp t ++ extension_of g))

-- A file that is written stands in the place of the one with its path, if any.
abbrev pub write_file : List Entry → Option Entry → List Entry
write_file folder none = folder
write_file [] (some e) = e ∷ []
write_file (d ∷ folder) (some e) =
    let rest = write_file folder (some e) in if bytes_eq d.path e.path then e ∷ folder else d ∷ rest

abbrev pub member : Bytes → List Bytes → Bool
member p [] = false
member p (q ∷ paths) = bytes_eq p q || member p paths

-- The folder without the paths that were removed.
abbrev pub remaining : List Bytes → List Entry → List Entry
remaining removed [] = []
remaining removed (e ∷ folder) =
    let rest = remaining removed folder in if member e.path removed then rest else e ∷ rest

-- The nanoseconds since the last files, the two files of a turn where they can be written, of which
-- `cv::imwrite` may throw, and what the file system then answers for the folder with its entries, where
-- `exists` and `is_directory` may throw.
pub record Gathering : Type 0 where
  pub elapsed : ℕ
  pub image_file : Result (Option Entry)
  pub label_file : Option Entry
  pub directory : List Entry → Result Directory

module _ (sort : List (Bytes × ℕ) → List (Bytes × ℕ)) (throws : Bytes → Bool) where
  unfoldable pub gather : List Entry → Gathering → Result (List Entry)
  gather folder g =
      if ltb (duration_between_data * second) g.elapsed
      then (g.image_file >>= λ image.
          let written = write_file (write_file folder image) g.label_file in
          g.directory written >>= λ directory. ok (
            remaining
              (delete_oldest_file_threshold sort throws directory (total_data_per_channel * 2))
              written))
      else ok folder

  unfoldable pub gather_all : List Entry → List Gathering → Result (List Entry)
  unfolding gather
  gather_all folder [] = ok folder
  gather_all folder (g ∷ turns) = gather folder g >>= λ folder'. gather_all folder' turns
