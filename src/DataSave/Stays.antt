-- ===== src/DataSave/Stays.antt =====
-- src/main.cpp with include/data_save/directory.h: the number of the files that are gathered.
use mathlib.Core.List.{Permᴰ}
use mathlib.Core.List.Permᴰ.{nil, cons, swap, trans}
use multi_cctv_object_detect.Prelude.{
  ℕ, suc, ◌+◌, ◌*◌, ◌≤◌, Bool, true, false, List, [], ◌∷◌, ◌++◌, map, ◌≡◌, inl, inr, refl, ap, ◌∙◌,
  Bytes, bytes_eq_iff, arith, length, All, All-map, ltb, Bool-cases, Option, ok, if◌then◌else◌,
}
use multi_cctv_object_detect.AlarmManager.{second}
use multi_cctv_object_detect.DataSave.{Entry, listed, regular_files, delete_oldest_file_threshold}
use multi_cctv_object_detect.DataSave.Oldest.{Sorted, KeepsNewest, delete_oldest-KeepsNewest}
use multi_cctv_object_detect.DataSave.Gather.{
  total_data_per_channel, duration_between_data, member, remaining, write_file, Gathering, gather,
  gather_all,
}

-- How many of the files are not among the paths.
abbrev count_left : List Bytes → List (Bytes × ℕ) → ℕ
count_left removed [] = 0
count_left removed (f ∷ files) =
    let n = count_left removed files in if member f.0 removed then n else suc n

remaining-count_left :
    (removed : List Bytes) (folder : List Entry)
    → length (regular_files (remaining removed folder)) ≡ count_left removed (regular_files folder)
unfolding regular_files
remaining-count_left removed [] = refl
remaining-count_left removed (e ∷ folder) =
    let rest = remaining-count_left removed folder in
    elim (Bool-cases (member e.path removed)) [
      | inl gone ↦ elim (Bool-cases e.is_regular_file) [
        | inl regular ↦ rw (gone, regular, regular_files) (rw gone rest)
        | inr other ↦ rw (gone, other, regular_files) rest
      ]
      | inr kept ↦ elim (Bool-cases e.is_regular_file) [
        | inl regular ↦ rw (kept, regular, regular_files) (rw kept (ap suc rest))
        | inr other ↦ rw (kept, other, regular_files) rest
      ]
    ]

count_left-swap :
    (removed : List Bytes) (f g : Bytes × ℕ) (xs : List (Bytes × ℕ))
    → count_left removed (f ∷ g ∷ xs) ≡ count_left removed (g ∷ f ∷ xs)
count_left-swap removed f g xs = ground arith

count_left-Permᴰ :
    (removed : List Bytes) {xs ys : List (Bytes × ℕ)}
    → Permᴰ xs ys
    → count_left removed xs ≡ count_left removed ys
count_left-Permᴰ removed nil = refl
count_left-Permᴰ removed (cons {a = a} {b = b} {l₁ = xs} {l₂ = ys} e d) =
    ap (λ f. count_left removed (f ∷ xs)) e
    ∙ ap (λ (n : ℕ). if member b.0 removed then n else suc n) (count_left-Permᴰ removed d)
count_left-Permᴰ removed (swap {a = a} {b = b} {a' = a'} {b' = b'} {l = xs} e₁ e₂) =
    count_left-swap removed a b xs
    ∙ (ap (λ f. count_left removed (f ∷ a ∷ xs)) e₂ ∙ ap (λ f. count_left removed (a' ∷ f ∷ xs)) e₁)
count_left-Permᴰ removed (trans d₁ d₂) = count_left-Permᴰ removed d₁ ∙ count_left-Permᴰ removed d₂

count_left-append :
    (removed : List Bytes) (xs ys : List (Bytes × ℕ))
    → count_left removed (xs ++ ys) ≡ count_left removed xs + count_left removed ys
count_left-append removed [] ys = omega arith
count_left-append removed (x ∷ xs) ys = ground (arith, count_left-append removed xs ys)

count_left-length :
    (removed : List Bytes) (xs : List (Bytes × ℕ)) → count_left removed xs ≤ length xs
count_left-length removed [] = omega arith
count_left-length removed (x ∷ xs) = ground (arith, count_left-length removed xs)

-- A file among the paths.
abbrev IsGone : List Bytes → Bytes × ℕ → Type 0
IsGone removed f = member f.0 removed ≡ true

IsGone-map : (files : List (Bytes × ℕ)) → All (IsGone (map (λ f. f.0) files)) files
IsGone-map [] = tt
IsGone-map (f ∷ files) = (
  rw ((bytes_eq_iff f.0 f.0).1 refl) refl,
  All-map (IsGone (map (λ f. f.0) files)) (IsGone (f.0 ∷ map (λ f. f.0) files)) files
      (λ g h. ground (arith, h)) (IsGone-map files),
)

count_left-gone :
    (removed : List Bytes) (files : List (Bytes × ℕ))
    → All (IsGone removed) files
    → count_left removed files ≡ 0
count_left-gone removed [] h = refl
count_left-gone removed (f ∷ files) (h, hs) = rw h (count_left-gone removed files hs)

-- What a call leaves in the folder is at most the threshold.
KeepsNewest-remaining :
    (folder : List Entry) (threshold : ℕ) (removed : List Bytes)
    → KeepsNewest (regular_files folder) threshold removed
    → length (regular_files (remaining removed folder)) ≤ threshold
KeepsNewest-remaining folder threshold removed h =
    let gone : count_left removed h.gone ≡ 0 =
      rw h.removes (count_left-gone (map (λ f. f.0) h.gone) h.gone (IsGone-map h.gone)) in
    let kept = count_left-length removed h.kept in
    let split = count_left-append removed h.gone h.kept in
    let same = count_left-Permᴰ removed h.together in
    let whole = remaining-count_left removed folder in
    omega (arith, gone, kept, split, same, whole, h.room)

-- `cv::imwrite` does not throw, and the folder can be listed.
pub record Answers (g : Gathering) : Type 0 where
  pub image : (file : Option Entry) × (g.image_file ≡ ok file)
  pub listing : (folder : List Entry) → g.directory folder ≡ ok (listed folder)

module _ (sort : List (Bytes × ℕ) → List (Bytes × ℕ)) (throws : Bytes → Bool)
    (perm : (files : List (Bytes × ℕ)) → Permᴰ (sort files) files)
    (sorted : (files : List (Bytes × ℕ)) → Sorted (sort files))
    (removable : (p : Bytes) → throws p ≡ false) where
  pub gather-bound :
      (folder : List Entry) (g : Gathering)
      → Answers g
      → length (regular_files folder) ≤ total_data_per_channel * 2
      → (folder' : List Entry) × (gather sort throws folder g ≡ ok folder')
        × (length (regular_files folder') ≤ total_data_per_channel * 2)
  unfolding gather
  gather-bound folder g answers h =
      elim (Bool-cases (ltb (duration_between_data * second) g.elapsed)) [
        | inr soon ↦ (folder, rw soon refl, h)
        | inl due ↦
            let (image, e) = answers.image in
            let written = write_file (write_file folder image) g.label_file in
            (
              remaining
                  (delete_oldest_file_threshold sort throws (listed written)
                    (total_data_per_channel * 2))
                  written,
              rw (due, e, answers.listing written) refl,
              KeepsNewest-remaining written (total_data_per_channel * 2) _ (
                  delete_oldest-KeepsNewest sort throws written (total_data_per_channel * 2)
                    (perm (regular_files written)) (sorted (regular_files written)) removable),
            )
      ]

  -- Where at each turn `cv::imwrite` does not throw and the folder can be listed, `std::sort` gives the files in
  -- the order of their times and no removal throws: for a channel's folder that holds at most twice
  -- `total_data_per_channel` files, 19998, any turns of the channel's loop have no fault and leave no more in it,
  -- whatever pictures and labels they write into it.
  pub gather_all-bound :
      (folder : List Entry) (turns : List Gathering)
      → All Answers turns
      → length (regular_files folder) ≤ total_data_per_channel * 2
      → (folder' : List Entry) × (gather_all sort throws folder turns ≡ ok folder')
        × (length (regular_files folder') ≤ total_data_per_channel * 2)
  unfolding gather_all
  gather_all-bound folder [] _ h = (folder, refl, h)
  gather_all-bound folder (g ∷ turns) (answers, all_answer) h =
      let (folder₁, e₁, h₁) = gather-bound folder g answers h in
      let (folder₂, e₂, h₂) = gather_all-bound folder₁ turns all_answer h₁ in
      (folder₂, rw e₁ e₂, h₂)
