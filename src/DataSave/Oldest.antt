-- ===== src/DataSave/Oldest.antt =====
-- include/data_save/directory.h: what `delete_oldest_file_threshold` deletes, and what it keeps.
use mathlib.Core.List.{Permᴰ}
use mathlib.Core.List.Permᴰ.{nil, cons, swap, trans}
use mathlib.Core.List.Permᴰ
use multi_cctv_object_detect.Prelude.{
  ℕ, zero, suc, ◌-◌, ◌≤◌, min, Bool, false, List, [], ◌∷◌, ◌++◌, map, ◌≡◌, inl, inr, refl, ap, ◌∙◌,
  Bytes, All, arith, length, take, drop, length-drop, leb, Bool-cases,
}
use multi_cctv_object_detect.DataSave.{
  Entry, listed, regular_files, delete_all, delete_oldest_file_threshold,
}

-- A file is not newer than another.
abbrev pub NotNewer : (Bytes × ℕ) → (Bytes × ℕ) → Type 0
NotNewer (p, t) (q, u) = t ≤ u

abbrev pub Sorted : List (Bytes × ℕ) → Type 0
Sorted [] = Unit
Sorted (x ∷ xs) = All (NotNewer x) xs × Sorted xs

All-drop :
    (x : Bytes × ℕ) (n : ℕ) (xs : List (Bytes × ℕ))
    → All (NotNewer x) xs
    → All (NotNewer x) (drop n xs)
All-drop x zero xs h = h
All-drop x (suc n) [] h = tt
All-drop x (suc n) (y ∷ xs) (p, h) = All-drop x n xs h

take-oldest :
    (n : ℕ) (xs : List (Bytes × ℕ))
    → Sorted xs
    → All (λ x. All (NotNewer x) (drop n xs)) (take n xs)
take-oldest zero xs h = tt
take-oldest (suc n) [] h = tt
take-oldest (suc n) (x ∷ xs) (p, h) = (All-drop x n xs p, take-oldest n xs h)

take-drop : (n : ℕ) (xs : List (Bytes × ℕ)) → take n xs ++ drop n xs ≡ xs
take-drop zero xs = refl
take-drop (suc n) [] = refl
take-drop (suc n) (x ∷ xs) = ap (λ (t : List (Bytes × ℕ)). x ∷ t) (take-drop n xs)

delete_all-all :
    (throws : Bytes → Bool) (files : List (Bytes × ℕ))
    → ((p : Bytes) → throws p ≡ false)
    → delete_all throws files ≡ map (λ f. f.0) files
unfolding delete_all
delete_all-all throws [] h = refl
delete_all-all throws ((p, t) ∷ rest) h = rw (h p, delete_all-all throws rest h)

take-all : (n : ℕ) (xs : List (Bytes × ℕ)) → length xs ≤ n → length xs - n ≡ 0
take-all n xs h = omega arith

-- What a call leaves: the files removed and those kept are the regular files, no kept file is older
-- than a removed one, and as many are kept as there were, or the threshold.
pub record KeepsNewest (files : List (Bytes × ℕ)) (threshold : ℕ) (removed : List Bytes)
    : Type 0 where
  pub gone : List (Bytes × ℕ)
  pub kept : List (Bytes × ℕ)
  pub removes : removed ≡ map (λ f. f.0) gone
  pub together : Permᴰ (gone ++ kept) files
  pub oldest : All (λ x. All (NotNewer x) kept) gone
  pub room : length kept ≡ min (length files) threshold

Permᴰ-length : {xs ys : List (Bytes × ℕ)} → Permᴰ xs ys → length xs ≡ length ys
Permᴰ-length nil = refl
Permᴰ-length (cons e d) = ap suc (Permᴰ-length d)
Permᴰ-length (swap e₁ e₂) = refl
Permᴰ-length (trans d₁ d₂) = Permᴰ-length d₁ ∙ Permᴰ-length d₂

-- Where `std::sort` gives the files in the order of their times and no removal throws, a call removes
-- some of the regular files, none of them newer than a file that it keeps, and keeps as many files as
-- there were or the threshold, whichever is less.
pub delete_oldest-KeepsNewest :
    (sort : List (Bytes × ℕ) → List (Bytes × ℕ)) (throws : Bytes → Bool) (entries : List Entry)
    (threshold : ℕ)
    → Permᴰ (sort (regular_files entries)) (regular_files entries)
    → Sorted (sort (regular_files entries))
    → ((p : Bytes) → throws p ≡ false)
    → KeepsNewest
        (regular_files entries)
        threshold
        (delete_oldest_file_threshold sort throws (listed entries) threshold)
unfolding delete_oldest_file_threshold
delete_oldest-KeepsNewest sort throws entries threshold perm sorted removable =
    let files = regular_files entries in
    let n = length files - threshold in
    let same = Permᴰ-length perm in
    elim (Bool-cases (leb (length files) threshold)) [
      | inl few ↦ record {
        gone = [];
        kept = files;
        removes = rw few;
        together = Permᴰ.refl files;
        oldest = tt;
        room = ground arith;
      }
      | inr many ↦ record {
        gone = take n (sort files);
        kept = drop n (sort files);
        removes = rw (many, delete_all-all throws (take n (sort files)) removable);
        together = rw (take-drop n (sort files)) perm;
        oldest = take-oldest n (sort files) sorted;
        room = ground (arith, length-drop n (sort files), same);
      }
    ]
