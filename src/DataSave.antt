-- ===== src/DataSave.antt =====
-- include/data_save/directory.h: the functions that count the saved files and delete the oldest.
-- The file system is not modelled: what it answers is the argument `Directory`, whether the removal of
-- a path throws is a function, and so is `std::sort`. A time is a number that grows with it.
pub mod Oldest
pub mod Find
pub mod Gather
pub mod Stays
pub mod Paths
use multi_cctv_object_detect.Prelude.{
  ℕ, zero, suc, ℤ, pos, negsuc, ◌+◌, ◌-◌, Bool, true, false, List, [], ◌∷◌, map, Option, none, some,
  Bytes, bytes_eq, length, take, ltb, leb, if◌then◌else◌,
}

pub record Entry : Type 0 where
  pub path : Bytes
  pub extension : Bytes
  pub is_regular_file : Bool
  pub last_write_time : ℕ

-- A path that is no directory, one that the file system refuses to list, or the entries.
pub data Directory : Type 0 where
  no_directory refused : Directory
  listed : List Entry → Directory

abbrev pub has_extension : Bytes → Entry → Bool
has_extension extension e = if e.is_regular_file then bytes_eq e.extension extension else false

unfoldable count_matching : Bytes → List Entry → ℕ
count_matching extension [] = 0
count_matching extension (e ∷ rest) =
    let n = count_matching extension rest in if has_extension extension e then suc n else n

unfoldable count_file : Directory → Bytes → ℤ
unfolding count_matching
count_file no_directory extension = negsuc 0
count_file refused extension = negsuc 0
count_file (listed entries) extension = pos (count_matching extension entries)

-- `current_time < oldest_time`; `none` is `file_time_type::max()`.
abbrev is_older : Entry → Option (ℕ × Bytes) → Bool
is_older e none = true
is_older e (some (oldest_time, p)) = ltb e.last_write_time oldest_time

abbrev older_of : Bytes → Entry → Option (ℕ × Bytes) → Option (ℕ × Bytes)
older_of extension e best =
    if has_extension extension e
    then (if is_older e best then some (e.last_write_time, e.path) else best)
    else best

-- The loop, with `oldest_time` and `oldest_file_path`.
unfoldable pub oldest_from : Bytes → Option (ℕ × Bytes) → List Entry → Option (ℕ × Bytes)
oldest_from extension best [] = best
oldest_from extension best (e ∷ rest) = oldest_from extension (older_of extension e best) rest

unfoldable pub find_oldest_jpg_file : Directory → Bytes → Bytes
unfolding oldest_from
find_oldest_jpg_file (listed entries) extension = elim (oldest_from extension none entries) [
  | none ↦ []
  | some b ↦ b.1
]
find_oldest_jpg_file _ extension = []

-- `files`: the regular files with their times.
unfoldable pub regular_files : List Entry → List (Bytes × ℕ)
regular_files [] = []
regular_files (e ∷ rest) =
    let files = regular_files rest in
    if e.is_regular_file then (e.path, e.last_write_time) ∷ files else files

-- The loop that deletes: the paths that are removed; one that throws is passed over.
unfoldable pub delete_all : (Bytes → Bool) → List (Bytes × ℕ) → List Bytes
delete_all throws [] = []
delete_all throws ((p, t) ∷ rest) =
    let removed = delete_all throws rest in if throws p then removed else p ∷ removed

-- The paths removed, of which `deleted_count` is the number.
unfoldable pub delete_oldest_file_threshold :
    (List (Bytes × ℕ) → List (Bytes × ℕ)) → (Bytes → Bool) → Directory → ℕ → List Bytes
unfolding regular_files delete_all
delete_oldest_file_threshold sort throws (listed entries) threshold =
    let files = regular_files entries in
    if leb (length files) threshold
    then []
    else delete_all throws (take (length files - threshold) (sort files))
delete_oldest_file_threshold sort throws _ threshold = []
