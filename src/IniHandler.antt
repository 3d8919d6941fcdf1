-- ===== src/IniHandler.antt =====
-- src/config/iniHandler.cpp: the reader of ini files and the cells of the window. The files are not part
-- of the build. The map of the settings is a list of keys and texts. A product or a quotient that an `int` does
-- not hold is undefined.
pub mod Lines
pub mod Quotients
pub mod ReadBack
pub mod Tiles
use multi_cctv_object_detect.Prelude.{
  ℕ, zero, suc, ℤ, pos, negsuc, pos_part, ◌+◌, ◌*◌, ◌/◌, ◌%◌, Bool, true, false, not, ◌||◌, List,
  [], ◌∷◌, ◌++◌, Option, none, some, Bytes, codes, bytes_eq, stoi, get_elem?, ltb, ◌==◌,
  if◌then◌else◌, Result, ok, err, undefined, out_of_range, or_undefined, ◌>>=◌,
}
use multi_cctv_object_detect.Handler.{start_with, split, strip}
use multi_cctv_object_detect.Inference.{Rect}

abbrev pub Settings : Type 0
Settings = List (Bytes × Bytes)

-- `ini[key] = value`
abbrev pub put_setting : Settings → Bytes → Bytes → Settings
put_setting [] key value = (key, value) ∷ []
put_setting ((k, v) ∷ ini) key value =
    let rest = put_setting ini key value in
    if bytes_eq k key then (key, value) ∷ ini else (k, v) ∷ rest

-- `ini.at(key)`
abbrev pub setting_at : Settings → Bytes → Result Bytes
setting_at [] key = err out_of_range
setting_at ((k, v) ∷ ini) key =
    let rest = setting_at ini key in if bytes_eq k key then ok v else rest

-- `line.find(c) != std::string::npos`
abbrev pub has_byte : ℕ → Bytes → Bool
has_byte c [] = false
has_byte c (b ∷ s) = b == c || has_byte c s

abbrev pub read_setting : Bytes → ℕ → Settings → Result (Option Settings)
read_setting line sep ini = do
  key ← or_undefined (get_elem? (split line [] sep) 0)
  value ← or_undefined (get_elem? (split line [] sep) 1)
  ok (some (put_setting ini (strip key) (strip value)))

-- A round of the loop; `none` where the line has no separator.
unfoldable pub read_ini_line : Bytes → Settings → Result (Option Settings)
read_ini_line line ini =
    if start_with line (codes "//")
      || start_with line (codes "#")
      || start_with line (codes "/")
      || bytes_eq line []
    then ok (some ini)
    else if start_with line (codes "[")
    then ok (some ini)
    else if has_byte b':' (strip line)
    then read_setting (strip line) b':' ini
    else if has_byte b'=' (strip line)
    then read_setting (strip line) b'=' ini
    else ok none

unfoldable pub read_ini_lines : List Bytes → Settings → Result (Option Settings)
read_ini_lines [] ini = ok (some ini)
read_ini_lines (line ∷ lines) ini = read_ini_line line ini >>= λ o. elim o [
  | none ↦ ok none
  | some ini' ↦ read_ini_lines lines ini'
]

-- The value returned, and `ini_result`.
unfoldable pub read_ini : Option Bytes → Settings → Result (Bool × Settings)
unfolding read_ini_lines read_ini_line
read_ini none ini_result = ok (false, ini_result)
read_ini (some text) ini_result = read_ini_lines (split text [] 10) [] >>= λ o.
    ok (elim o [ none ↦ (false, ini_result) | some ini ↦ (true, ini) ])

-- Products, quotients and remainders of `int`, which round towards 0.
abbrev magnitude : ℤ → ℕ
magnitude (pos n) = n
magnitude (negsuc n) = suc n

abbrev is_negative : ℤ → Bool
is_negative (pos n) = false
is_negative (negsuc n) = true

abbrev with_sign : Bool → ℕ → ℤ
with_sign false n = pos n
with_sign true zero = pos 0
with_sign true (suc n) = negsuc n

abbrev differ : Bool → Bool → Bool
differ a b = if a then not b else b

abbrev times_int : ℤ → ℤ → ℤ
times_int a b = with_sign (differ (is_negative a) (is_negative b)) (magnitude a * magnitude b)

abbrev quotient : ℤ → ℤ → ℤ
quotient a b = with_sign (differ (is_negative a) (is_negative b)) (magnitude a / magnitude b)

abbrev remainder : ℤ → ℤ → ℤ
remainder a b = with_sign (is_negative a) (magnitude a % magnitude b)

-- A result of `int` arithmetic.
abbrev pub in_int : ℤ → Result ℤ
in_int (pos n) = if ltb n 0x8000_0000 then ok (pos n) else err undefined
in_int (negsuc n) = if ltb n 0x8000_0000 then ok (negsuc n) else err undefined

abbrev pub divide : ℤ → ℤ → Result ℤ
divide a b = if magnitude b == 0 then err undefined else in_int (quotient a b)

-- The loop over the cells, from `i` on with `n` rounds left. Its products fit an `int`: a cell's place is at most
-- `width` and `height` in size.
unfoldable pub roi_cells : ℤ → ℤ → ℤ → ℕ → ℕ → List Rect
roi_cells cell_width cell_height col zero i = []
roi_cells cell_width cell_height col (suc n) i =
    (record {
      left = times_int cell_width (remainder (pos i) col);
      top = times_int cell_height (quotient (pos i) col);
      width = cell_width;
      height = cell_height;
    })
    ∷ roi_cells cell_width cell_height col n (suc i)

abbrev pub int_at : Settings → Bytes → Result ℤ
int_at ini key = setting_at ini key >>= stoi

unfoldable pub configurate_roi_with_ini : Settings → List Rect → Result (List Rect)
unfolding roi_cells
configurate_roi_with_ini ini roi_vector = do
  row ← int_at ini (codes "window_row")
  col ← int_at ini (codes "window_col")
  width ← int_at ini (codes "window_width")
  height ← int_at ini (codes "window_height")
  num_roi ← in_int (times_int row col)
  cell_width ← divide width col
  cell_height ← divide height row
  ok (roi_vector ++ roi_cells cell_width cell_height col (pos_part num_roi) 0)
