-- ===== src/Tests/Web.antt =====
-- A turn that finds a fallen person, and what the web page then reads. A `double` is a number.
use multi_cctv_object_detect.Prelude.{
  ℕ, pos, pos_part, ◌+◌, ◌*◌, ◌/◌, ◌≤◌, ◌<◌, true, false, Bool, if◌then◌else◌, [], ◌∷◌, ◌≡◌, ◌≢◌,
  ◌↔◌, ◌⊎◌, refl, some, codes, arith, decimal, ok,
}
use multi_cctv_object_detect.Inference.{Rect, BBoxInfo}
use multi_cctv_object_detect.AlarmManager.{AlarmManager, World, can_cancel, is_channel_active}
use multi_cctv_object_detect.AlarmManager.Rules.{Fires, AnyRule}
use multi_cctv_object_detect.AlarmManager.Cases.{OnCooldown}
use multi_cctv_object_detect.Channel.{CameraChannel}
use multi_cctv_object_detect.Channel.Alarms.{seen_frame}
use multi_cctv_object_detect.Channel.Labels.{Doubles, Sizes, text_y}
use multi_cctv_object_detect.Channel.Placed.{text_y-Placed}
use multi_cctv_object_detect.Channel.WebFile.{
  Files, read_file, save_path, classes_of, Shown, show_turn,
}
use multi_cctv_object_detect.Handler.Split.{unlines}
use multi_cctv_object_detect.Channel.WebLines.{object_text}
use multi_cctv_object_detect.Channel.Shows.{show_turn-Shows}
use multi_cctv_object_detect.Tests.{rule, manager, world, first}
use multi_cctv_object_detect.Tests.Turns.{rule-IsReady, room_channel}

abbrev pub whole : Doubles ℕ
whole = record {
  of_int = pos_part;
  plus = ◌+◌;
  times = ◌*◌;
  over = ◌/◌;
  two = 2;
  general = decimal;
  fixed_6 = decimal;
}

abbrev pub sizes : Sizes
sizes = record { cols = pos 1920; rows = pos 1080; sub_cols = pos 480; sub_rows = pos 270 }

abbrev tall_box : Rect
tall_box = record { left = pos 4; top = pos 8; width = pos 100; height = pos 260 }

abbrev pub person : BBoxInfo ℕ
person = record {
  box = tall_box;
  class_name = codes "fallen down";
  class_id = pos 3;
  confidence = 1;
}

abbrev files : Files
files = (save_path (pos 2), codes "old") ∷ []

show_turn-Shows_example :
    (c' : CameraChannel) × (m' : AlarmManager) × (w' : World) × (shown : Shown) × (files' : Files)
    × (is_alarm : Bool) × (show_turn whole decimal 1 room_channel manager world first 7
          (person ∷ [])
          sizes
          true
          files
        ≡ ok (c', m', w', shown, files'))
    × (read_file files' (save_path (pos 1))
        ≡ some (
            unlines
              (((if is_alarm then b'1' else b'0') ∷ b' ' ∷ object_text whole sizes person) ∷ [])))
    × ((is_alarm ≡ true) ↔ (
        (can_cancel manager (seen_frame room_channel first 7 (classes_of (person ∷ [])) []) ≡ false)
        × ((is_channel_active manager (pos 1) ≡ true)
            ⊎ ((¬ OnCooldown manager (pos 1) 100)
                × AnyRule
                    (Fires 1 (seen_frame room_channel first 7 (classes_of (person ∷ [])) []))
                    (rule ∷ [])))))
    × ((j : ℕ) → j ≢ 1 → read_file files' (save_path (pos j)) ≡ read_file files (save_path (pos j)))
show_turn-Shows_example =
    show_turn-Shows whole decimal 1 room_channel manager world first 7 (person ∷ []) sizes files
      (rule ∷ []) [] 1 (ground arith) refl refl refl (rule-IsReady, tt)

-- The label of this box stands below the picture of 270 rows.
text_y-Placed_example :
    (y : ℕ) × (text_y tall_box ≡ pos y)
    × (15 ≤ y)
    × ((y + 10 ≡ 8) ⊎ (y ≡ 8 + 260 + 15))
    × ((270 < y) ↔ ((8 < 30) × (270 < 8 + 260 + 15)))
text_y-Placed_example =
    text_y-Placed tall_box 270 8 260 (record { at_top = refl; high = refl; within = omega arith })
