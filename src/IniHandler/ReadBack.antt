-- ===== src/IniHandler/ReadBack.antt =====
-- src/config/iniHandler.cpp: the settings that `read_ini` finds in a file, against the last line of each
-- key.
use multi_cctv_object_detect.Prelude.{
  false, ◌++◌, append-nil, All-append, true, List, [], ◌∷◌, map, ◌≡◌, refl, Option, none, some,
  Bytes, All, arith, bytes_eq, bytes_eq_iff, if◌then◌else◌, Result, ok, err, out_of_range,
}
use multi_cctv_object_detect.Handler.Split.{Lacks, Stops, unlines, split-unlines}
use multi_cctv_object_detect.IniHandler.{
  Settings, put_setting, setting_at, read_ini_lines, read_ini,
}
use multi_cctv_object_detect.IniHandler.Lines.{
  Line, setting, remark, line_text, IsLine, IsPart, starts_remark, part-feed, line-Lacks,
  after_line, read_ini_line-line, read_ini_line-none,
}

abbrev value_in : Line → Bytes → Option Bytes
value_in (setting colon key value) wanted = if bytes_eq key wanted then some value else none
value_in (remark text) wanted = none

abbrev or_before : Option Bytes → Option Bytes → Option Bytes
or_before (some value) before = some value
or_before none before = before

-- The value on the last line of a key.
abbrev pub value_of : List Line → Bytes → Option Bytes
value_of [] wanted = none
value_of (l ∷ lines) wanted = or_before (value_of lines wanted) (value_in l wanted)

abbrev pub or_fault : Result Bytes → Option Bytes → Result Bytes
or_fault fault none = fault
or_fault fault (some value) = ok value

at-put :
    (ini : Settings) (key value wanted : Bytes)
    → setting_at (put_setting ini key value) wanted
      ≡ (if bytes_eq key wanted then ok value else setting_at ini wanted)
at-put [] key value wanted = refl
at-put ((k, v) ∷ ini) key value wanted = ground (
  arith,
  bytes_eq_iff key wanted,
  bytes_eq_iff k key,
  bytes_eq_iff k wanted,
  at-put ini key value wanted,
)

abbrev after_lines : List Line → Settings → Settings
after_lines [] ini = ini
after_lines (l ∷ lines) ini = after_lines lines (after_line l ini)

at-line :
    (l : Line) (ini : Settings) (wanted : Bytes)
    → setting_at (after_line l ini) wanted ≡ or_fault (setting_at ini wanted) (value_in l wanted)
at-line (setting colon key value) ini wanted = ground (arith, at-put ini key value wanted)
at-line (remark text) ini wanted = refl

or_fault-or_before :
    (fault : Result Bytes) (last before : Option Bytes)
    → or_fault (or_fault fault before) last ≡ or_fault fault (or_before last before)
or_fault-or_before fault none before = refl
or_fault-or_before fault (some value) before = refl

at-lines :
    (lines : List Line) (ini : Settings) (wanted : Bytes)
    → setting_at (after_lines lines ini) wanted
      ≡ or_fault (setting_at ini wanted) (value_of lines wanted)
at-lines [] ini wanted = refl
at-lines (l ∷ lines) ini wanted =
    rw (at-lines lines (after_line l ini) wanted, at-line l ini wanted)
      (or_fault-or_before (setting_at ini wanted) (value_of lines wanted) (value_in l wanted))

read_ini_lines-append :
    (lines : List Line) (rest : List Bytes) (ini : Settings)
    → All IsLine lines
    → read_ini_lines (map line_text lines ++ rest) ini ≡ read_ini_lines rest (after_lines lines ini)
unfolding read_ini_lines
read_ini_lines-append [] rest ini _ = refl
read_ini_lines-append (l ∷ lines) rest ini (h, hs) =
    rw (read_ini_line-line l ini h) (read_ini_lines-append lines rest (after_line l ini) hs)

read_ini_lines-after :
    (lines : List Line)
    → All IsLine lines
    → read_ini_lines (map line_text lines) [] ≡ ok (some (after_lines lines []))
unfolding read_ini_lines
read_ini_lines-after lines h = rw append-nil at (read_ini_lines-append lines [] [] h)

lines-Lacks : (lines : List Line) → All IsLine lines → All (Lacks 10) (map line_text lines)
lines-Lacks [] _ = tt
lines-Lacks (l ∷ lines) (h, hs) = (line-Lacks l h, lines-Lacks lines hs)

-- A file of lines that are each empty, a comment, a section, or a setting with a colon or an equals sign
-- between blanks, whose key and value are IsPart, while no key begins like a comment, is read without a
-- fault: read_ini returns true whatever ini_result held, and its settings have for each key the value on the
-- key's last line, and no entry, so that ini.at throws, for a key that has no line. Where a line that is
-- IsPart, thus without a separator, and that does not begin like a comment follows them, with any lines
-- behind it, read_ini returns false and leaves ini_result as it was.
pub read_ini-value_of :
    (lines : List Line) (bad : Bytes) (rest : List Bytes) (ini_result : Settings)
    → All IsLine lines
    → IsPart bad
    → Stops starts_remark bad
    → All (Lacks 10) rest
    → (ini : Settings) × (read_ini (some (unlines (map line_text lines))) ini_result
        ≡ ok (true, ini))
      × ((key : Bytes) → setting_at ini key ≡ or_fault (err out_of_range) (value_of lines key))
      × (read_ini (some (unlines (map line_text lines ++ bad ∷ rest))) ini_result
          ≡ ok (false, ini_result))
unfolding read_ini read_ini_lines
read_ini-value_of lines bad rest ini_result h part plain whole = (
  after_lines lines [],
  rw (split-unlines (map line_text lines) (lines-Lacks lines h), read_ini_lines-after lines h) refl,
  λ key. at-lines lines [] key,
  rw
      (
        split-unlines (map line_text lines ++ bad ∷ rest) (
            All-append (Lacks 10) (map line_text lines) (bad ∷ rest) (lines-Lacks lines h)
              (part-feed bad part, whole)),
        read_ini_lines-append lines (bad ∷ rest) [] h,
        read_ini_line-none bad (after_lines lines []) part plain,
      )
      refl,
)
