-- ===== src/Channel/SavePaths.antt =====
-- src/main.cpp: the files for the web page, one for each channel.
use multi_cctv_object_detect.Prelude.{
  ℕ, ℤ, pos, ◌+◌, ◌*◌, ◌-◌, false, [], ◌∷◌, ◌++◌, ◌≡◌, ◌≢◌, inl, inr, refl, sym, ap, ◌∙◌, arith,
  some, Bytes, bytes_eq, bytes_eq_iff, codes, to_string, is_digit, digits_value,
  digits_value-decimal, digits_value-fill_2, fill_2, drop, Bool-cases, if◌then◌else◌,
}
use multi_cctv_object_detect.Channel.WebFile.{Files, read_file, write_text, save_path}

read-write :
    (files : Files) (path text other : Bytes)
    → read_file (write_text files path text) other
      ≡ (if bytes_eq path other then some text else read_file files other)
unfolding read_file write_text
read-write [] path text other = refl
read-write ((p, old) ∷ files) path text other = ground (
  arith,
  bytes_eq_iff path other,
  bytes_eq_iff p path,
  bytes_eq_iff p other,
  read-write files path text other,
)

-- The number ends before the file's extension.
digits_value-extension : (n : ℕ) (s : Bytes) → digits_value n (s ++ codes ".txt") ≡ digits_value n s
digits_value-extension n [] = refl
digits_value-extension n (c ∷ s) = elim (Bool-cases (is_digit c)) [
  | inl digit ↦ rw digit (digits_value-extension (n * 10 + (c - b'0')) s)
  | inr other ↦ rw other
]

abbrev id_of_path : Bytes → ℕ
id_of_path path = digits_value 0 (drop 18 path)

id_of_path-save_path : (i : ℕ) → id_of_path (save_path (pos i)) ≡ i
unfolding save_path to_string
id_of_path-save_path i =
    digits_value-extension 0 (fill_2 (to_string (pos i)))
    ∙ digits_value-fill_2 (to_string (pos i))
    ∙ digits_value-decimal i

-- Two channels have two files.
save_path-ne : (i j : ℕ) → j ≢ i → bytes_eq (save_path (pos i)) (save_path (pos j)) ≡ false
save_path-ne i j ne = elim (Bool-cases (bytes_eq (save_path (pos i)) (save_path (pos j)))) [
  | inl same ↦ absurd (
      ne (
        sym (id_of_path-save_path j)
        ∙ sym (ap id_of_path ((bytes_eq_iff (save_path (pos i)) (save_path (pos j))).0 same))
        ∙ id_of_path-save_path i))
  | inr different ↦ different
]

-- The text stands in the file of channel `i`, and the files of the other channels are as before.
abbrev pub Written : Files → Bytes → ℕ → ℤ → Type 0
Written files text i ident =
    (read_file (write_text files (save_path ident) text) (save_path (pos i)) ≡ some text)
    × ((j : ℕ)
        → j ≢ i
        → read_file (write_text files (save_path ident) text) (save_path (pos j))
          ≡ read_file files (save_path (pos j)))

pub write-Written : (files : Files) (text : Bytes) (i : ℕ) → Written files text i (pos i)
write-Written files text i = (
  rw (read-write, (bytes_eq_iff (save_path (pos i)) (save_path (pos i))).1 refl),
  λ j ne. rw (read-write, save_path-ne i j ne),
)
