-- ===== src/Tests/Folder.antt =====
-- A sort of the files, and a folder that a channel writes into.
use mathlib.Core.List.{Permᴰ}
use mathlib.Core.List.Permᴰ.{nil, cons, swap, trans}
use mathlib.Core.List.Permᴰ
use multi_cctv_object_detect.Prelude.{
  ok, ℕ, pos, ◌≡◌, ◌*◌, ◌≤◌, true, false, List, [], ◌∷◌, inl, inr, refl, some, none, Bytes, codes,
  arith, length, ltb, All, All-map, Bool-cases, if◌then◌else◌,
}
use multi_cctv_object_detect.AlarmManager.{second}
use multi_cctv_object_detect.DataSave.{listed, Entry, regular_files}
use multi_cctv_object_detect.DataSave.Oldest.{NotNewer, Sorted}
use multi_cctv_object_detect.DataSave.Gather.{
  Gathering, Gathered, picture, labels, extension_of, gathered_path, write_file, gather_all,
}
use multi_cctv_object_detect.DataSave.Paths.{gathered-Appends}
use multi_cctv_object_detect.TimeStamp.{Tm}
use multi_cctv_object_detect.DataSave.Stays.{gather_all-bound}

-- Insertion in the order of the times.
abbrev insert : (Bytes × ℕ) → List (Bytes × ℕ) → List (Bytes × ℕ)
insert f [] = f ∷ []
insert f (g ∷ files) = let rest = insert f files in if ltb f.1 g.1 then f ∷ g ∷ files else g ∷ rest

abbrev pub sort : List (Bytes × ℕ) → List (Bytes × ℕ)
sort [] = []
sort (f ∷ files) = insert f (sort files)

insert-Permᴰ : (f : Bytes × ℕ) (files : List (Bytes × ℕ)) → Permᴰ (insert f files) (f ∷ files)
insert-Permᴰ f [] = Permᴰ.refl (f ∷ [])
insert-Permᴰ f (g ∷ files) = elim (Bool-cases (ltb f.1 g.1)) [
  | inl older ↦ rw older (Permᴰ.refl (f ∷ g ∷ files))
  | inr other ↦ rw other (trans (cons refl (insert-Permᴰ f files)) (swap refl refl))
]

pub sort-Permᴰ : (files : List (Bytes × ℕ)) → Permᴰ (sort files) files
sort-Permᴰ [] = nil
sort-Permᴰ (f ∷ files) = trans (insert-Permᴰ f (sort files)) (cons refl (sort-Permᴰ files))

insert-All :
    (P : Bytes × ℕ → Type 0) (f : Bytes × ℕ) (files : List (Bytes × ℕ))
    → P f
    → All P files
    → All P (insert f files)
insert-All P f [] p _ = (p, tt)
insert-All P f (g ∷ files) p (q, h) = elim (Bool-cases (ltb f.1 g.1)) [
  | inl older ↦ rw older (p, (q, h))
  | inr other ↦ rw other (q, insert-All P f files p h)
]

insert-Sorted : (f : Bytes × ℕ) (files : List (Bytes × ℕ)) → Sorted files → Sorted (insert f files)
insert-Sorted f [] h = (tt, tt)
insert-Sorted f (g ∷ files) (h, hs) = elim (Bool-cases (ltb f.1 g.1)) [
  | inl older ↦ rw older (
    (ground arith, All-map (NotNewer g) (NotNewer f) files (λ x k. ground (arith, k)) h),
    (h, hs),
  )
  | inr other ↦
      rw other (insert-All (NotNewer g) f files (ground arith) h, insert-Sorted f files hs)
]

pub sort-Sorted : (files : List (Bytes × ℕ)) → Sorted (sort files)
sort-Sorted [] = tt
sort-Sorted (f ∷ files) = insert-Sorted f (sort files) (sort-Sorted files)

abbrev pub file : Bytes → ℕ → Entry
file path time = record {
  path = path;
  extension = codes ".jpg";
  is_regular_file = true;
  last_write_time = time;
}

abbrev turns : List Gathering
turns =
    (record {
      elapsed = 301 * second;
      image_file = ok (some (file (codes "b") 9));
      label_file = some (file (codes "c") 9);
      directory = λ entries. ok (listed entries);
    })
    ∷ (record {
      elapsed = 5;
      image_file = ok none;
      label_file = none;
      directory = λ entries. ok (listed entries);
    })
    ∷ []

gather_all-bound_example :
    (folder : List Entry) × (gather_all sort (λ p. false) (file (codes "a") 5 ∷ []) turns
      ≡ ok folder)
    × (length (regular_files folder) ≤ 19998)
unfolding regular_files
gather_all-bound_example =
    gather_all-bound sort (λ p. false) sort-Permᴰ sort-Sorted (λ p. refl) (file (codes "a") 5 ∷ [])
      turns
      (
        record { image = (some (file (codes "b") 9), refl); listing = λ folder. refl },
        (record { image = (none, refl); listing = λ folder. refl }, tt),
      )
      (ground arith)

abbrev midnight : Tm
midnight = record { tm_year = 125; tm_mon = 10; tm_mday = 26; tm_hour = 0; tm_min = 0; tm_sec = 7 }

-- The file of another channel, and those of this turn.
abbrev file_at : ℕ → Gathered → Entry
file_at i g = record {
  path = gathered_path (codes "./data") (pos i) midnight g;
  extension = extension_of g;
  is_regular_file = true;
  last_write_time = i;
}

gathered-Appends_example :
    write_file
      (write_file (file_at 1 picture ∷ []) (some (file_at 2 picture)))
      (some (file_at 2 labels))
    ≡ file_at 1 picture ∷ file_at 2 picture ∷ file_at 2 labels ∷ []
gathered-Appends_example =
    gathered-Appends (codes "./data") 2 midnight (file_at 1 picture ∷ []) (file_at 2 picture)
      (file_at 2 labels) refl refl
      ((1, midnight, picture, refl, λ (same, _). omega (arith, same)), tt)
