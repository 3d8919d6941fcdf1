-- ===== src/DataSave/Paths.antt =====
-- src/main.cpp with include/time/timestamp.h: the paths of the files that are gathered.
use multi_cctv_object_detect.Prelude.{
  ℕ, pos, [], ◌∷◌, ◌++◌, ◌≡◌, refl, sym, ap, ◌∙◌, arith, Bytes, decimal, drop, digits_value,
  digits_value-decimal, decimal-Digits, Digits-end, to_string, List, some, All, All-map, All-append,
  bytes_eq, bytes_eq_iff, Bool-cases, inl, inr, append_assoc, false,
}
use multi_cctv_object_detect.DataSave.{Entry}
use multi_cctv_object_detect.TimeStamp.{Tm, time_stamp}
use multi_cctv_object_detect.TimeStamp.Distinct.{time_stamp-end}
use multi_cctv_object_detect.DataSave.Gather.{
  Gathered, picture, labels, extension_of, gathered_path, write_file,
}

append-cancel_left : (p s t : Bytes) → p ++ s ≡ p ++ t → s ≡ t
append-cancel_left [] s t e = e
append-cancel_left (b ∷ p) s t e = append-cancel_left p s t (ap (drop 1) e)

extension-end :
    (t t' : Tm) (g g' : Gathered)
    → time_stamp t ++ extension_of g ≡ time_stamp t' ++ extension_of g'
    → (t ≡ t') × (g ≡ g')
extension-end t t' picture picture e = ((time_stamp-end t t' _ _ b'.' b'.' refl refl e).0, refl)
extension-end t t' labels labels e = ((time_stamp-end t t' _ _ b'.' b'.' refl refl e).0, refl)
extension-end t t' picture labels e =
    absurd (ground (arith, (time_stamp-end t t' _ _ b'.' b'.' refl refl e).1))
extension-end t t' labels picture e =
    absurd (ground (arith, (time_stamp-end t t' _ _ b'.' b'.' refl refl e).1))

-- Two paths are equal only if they are of one channel, one second and one kind.
gathered_path-injective :
    (point : Bytes) (i j : ℕ) (t t' : Tm) (g g' : Gathered)
    → gathered_path point (pos i) t g ≡ gathered_path point (pos j) t' g'
    → (i ≡ j) × (t ≡ t') × (g ≡ g')
unfolding gathered_path to_string
gathered_path-injective point i j t t' g g' e =
    let e₁ = ap (drop 1) (append-cancel_left point _ _ e) in
    let (ids, e₂) =
      Digits-end (decimal i) (decimal j) _ _ b'/' b'/' (decimal-Digits i) (decimal-Digits j) refl
        refl e₁ in
    let (times, kinds) = extension-end t t' g g' (ap (drop 1) e₂) in
    (sym (digits_value-decimal i) ∙ ap (digits_value 0) ids ∙ digits_value-decimal j, times, kinds)

-- A file that was gathered by another channel, or at another second of the local time.
abbrev OfOther : Bytes → ℕ → Tm → Entry → Type 0
OfOther point i t e =
    (j : ℕ) × (t' : Tm) × (g : Gathered) × (e.path ≡ gathered_path point (pos j) t' g)
    × (¬ ((j ≡ i) × (t' ≡ t)))

OfOther-ne :
    (point : Bytes) (i : ℕ) (t : Tm) (g : Gathered) (e : Entry) (path : Bytes)
    → path ≡ gathered_path point (pos i) t g
    → OfOther point i t e
    → bytes_eq e.path path ≡ false
OfOther-ne point i t g e path here (j, t', g', there, other) =
    elim (Bool-cases (bytes_eq e.path path)) [
      | inl same ↦
          let (ids, times, kinds) =
            gathered_path-injective point j i t' t g' g
              (sym there ∙ (bytes_eq_iff e.path path).0 same ∙ here) in
          absurd (other (ids, times))
      | inr different ↦ different
    ]

write_file-append :
    (folder : List Entry) (e : Entry)
    → All (λ d. bytes_eq d.path e.path ≡ false) folder
    → write_file folder (some e) ≡ folder ++ e ∷ []
write_file-append [] e new = refl
write_file-append (d ∷ folder) e (different, new) =
    rw different (ap (λ (xs : List Entry). d ∷ xs) (write_file-append folder e new))

picture-ne-labels :
    (point : Bytes) (i : ℕ) (t : Tm) (image label : Bytes)
    → image ≡ gathered_path point (pos i) t picture
    → label ≡ gathered_path point (pos i) t labels
    → bytes_eq image label ≡ false
picture-ne-labels point i t image label at_image at_label =
    elim (Bool-cases (bytes_eq image label)) [
      | inl same ↦
          let (_, _, kinds) =
            gathered_path-injective point i i t t picture labels
              (sym at_image ∙ (bytes_eq_iff image label).0 same ∙ at_label) in
          absurd (ground (arith, kinds))
      | inr different ↦ different
    ]

-- Whatever the folder in which data is gathered: where it holds only files that were gathered by other
-- channels or at other seconds, a turn that writes its picture and its labels adds these two files and
-- writes over none.
pub gathered-Appends :
    (point : Bytes) (i : ℕ) (t : Tm) (folder : List Entry) (image label : Entry)
    → image.path ≡ gathered_path point (pos i) t picture
    → label.path ≡ gathered_path point (pos i) t labels
    → All (OfOther point i t) folder
    → write_file (write_file folder (some image)) (some label) ≡ folder ++ image ∷ label ∷ []
gathered-Appends point i t folder image label at_image at_label others =
    let after_image : write_file folder (some image) ≡ folder ++ image ∷ [] =
      write_file-append folder image (
        All-map (OfOther point i t) (λ d. bytes_eq d.path image.path ≡ false) folder
          (λ e other. OfOther-ne point i t picture e image.path at_image other) others) in
    let not_label : (e : Entry) → OfOther point i t e → bytes_eq e.path label.path ≡ false =
      λ e other. OfOther-ne point i t labels e label.path at_label other in
    let after_label : write_file (folder ++ image ∷ []) (some label)
        ≡ (folder ++ image ∷ []) ++ label ∷ [] =
      write_file-append (folder ++ image ∷ []) label (
        All-append (λ d. bytes_eq d.path label.path ≡ false) folder (image ∷ [])
          (All-map (OfOther point i t) (λ d. bytes_eq d.path label.path ≡ false) folder not_label
            others)
          (picture-ne-labels point i t image.path label.path at_image at_label, tt)) in
    rw after_image (after_label ∙ append_assoc folder (image ∷ []) (label ∷ []))
