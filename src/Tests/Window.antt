-- ===== src/Tests/Window.antt =====
-- A window of two rows and three columns.
use multi_cctv_object_detect.Prelude.{
  ◌++◌, true, false, List, [], map, Bytes, err, out_of_range, ◌∷◌, ◌≡◌, refl, some, codes, arith,
  ok, is_space,
}
use multi_cctv_object_detect.Handler.{start_with, split, strip}
use multi_cctv_object_detect.Handler.Split.{unlines}
use multi_cctv_object_detect.IniHandler.{Settings, setting_at, read_ini}
use multi_cctv_object_detect.IniHandler.Lines.{Line, setting, remark, line_text, IsPart}
use multi_cctv_object_detect.IniHandler.ReadBack.{value_of, or_fault, read_ini-value_of}

abbrev ini : Settings
ini =
    (codes "window_row", codes "2")
    ∷ (codes "window_col", codes "3")
    ∷ (codes "window_width", codes "480")
    ∷ (codes "window_height", codes "270")
    ∷ []

ini_text :
    read_ini
      (some (
        unlines (
          codes "[Window]"
          ∷ codes "window_row = 2"
          ∷ codes "# columns"
          ∷ codes "window_col : 3"
          ∷ codes "window_width=480"
          ∷ codes "window_height=270"
          ∷ [])))
      []
    ≡ ok (true, ini)
unfolding read_ini start_with split strip is_space
ini_text = refl

abbrev lines : List Line
lines =
    remark (codes "[Window]")
    ∷ setting false (codes "window_row") (codes "2")
    ∷ remark []
    ∷ setting true (codes "window_row") (codes "3")
    ∷ []

IsPart-row : IsPart (codes "window_row")
unfolding is_space
IsPart-row = record { trim = record { start = refl; end = refl }; marks = ground arith }

IsPart-two : IsPart (codes "2")
unfolding is_space
IsPart-two = record { trim = record { start = refl; end = refl }; marks = ground arith }

IsPart-three : IsPart (codes "3")
unfolding is_space
IsPart-three = record { trim = record { start = refl; end = refl }; marks = ground arith }

IsPart-word : IsPart (codes "window")
unfolding is_space
IsPart-word = record { trim = record { start = refl; end = refl }; marks = ground arith }

read_ini-value_of_example :
    (found : Settings) × (read_ini (some (unlines (map line_text lines))) ini ≡ ok (true, found))
    × ((key : Bytes) → setting_at found key ≡ or_fault (err out_of_range) (value_of lines key))
    × (read_ini (some (unlines (map line_text lines ++ codes "window" ∷ codes "a = b" ∷ []))) ini
        ≡ ok (false, ini))
read_ini-value_of_example =
    read_ini-value_of lines (codes "window") (codes "a = b" ∷ []) ini
      (
        (refl, ground arith),
        ((IsPart-row, refl, IsPart-two), ((tt, tt), ((IsPart-row, refl, IsPart-three), tt))),
      )
      IsPart-word refl (ground arith)
