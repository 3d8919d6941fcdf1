-- ===== src/Tests/Turns.antt =====
-- The loading of the test rule, a turn of its channel, and the oldest of two files.
use multi_cctv_object_detect.Prelude.{
  ℤ, pos, false, [], ◌∷◌, ◌++◌, ◌≡◌, ◌↔◌, refl, some, codes, arith, ok,
}
use multi_cctv_object_detect.Handler.Split.{unlines}
use multi_cctv_object_detect.AlarmFile.Render.{file_lines}
use multi_cctv_object_detect.AlarmManager.{
  AlarmManager, World, load_alarms_from_file, can_cancel, process_channel_alarms,
}
use multi_cctv_object_detect.AlarmManager.Rules.{Fires, AnyRule, IsReady}
use multi_cctv_object_detect.AlarmManager.Cases.{OnCooldown}
use multi_cctv_object_detect.AlarmManager.Loaded.{load-process-raises_iff}
use multi_cctv_object_detect.Channel.{CameraChannel, new_channel, detected, history_item, turn}
use multi_cctv_object_detect.Channel.Recent.{newest}
use multi_cctv_object_detect.Channel.Alarms.{seen_frame, turn-raises_iff}
use multi_cctv_object_detect.Tests.{rule, manager, world, first, rule-IsRule, fallen-Plain}

pub rule-IsReady : IsReady (codes "nurse" ∷ []) rule
rule-IsReady = record {
  rule = rule-IsRule;
  plain = fallen-Plain;
  has_context = (codes "nurse", refl);
}

abbrev empty_manager : AlarmManager
empty_manager = record manager { alarms = [] }

load-process-raises_iff_example :
    (loaded : AlarmManager) × (load_alarms_from_file empty_manager
        (some (unlines (file_lines (rule ∷ []))))
      ≡ ok loaded)
    × (r : ℤ) × (m' : AlarmManager) × (w' : World) × (process_channel_alarms 2 loaded world first
        ≡ ok (r, m', w'))
    × ((r ≡ pos 1) ↔ (
        (can_cancel empty_manager first ≡ false)
        × (¬ OnCooldown empty_manager (pos 1) 100)
        × AnyRule (Fires 2 first) (rule ∷ [])))
load-process-raises_iff_example =
    load-process-raises_iff 2 empty_manager world first (rule ∷ []) refl (rule-IsReady, tt)

abbrev pub room_channel : CameraChannel
room_channel = new_channel (pos 1) (pos 101) (codes "room") (codes "bed")

turn-raises_iff_example :
    (c' : CameraChannel) × (m' : AlarmManager) × (w' : World) × (turn 1 room_channel manager world
        first
        (detected 7 (pos 3 ∷ []))
      ≡ ok (c', m', w'))
    × (c'.detected_class_history ≡ newest 199 ([] ++ history_item 7 (pos 3 ∷ []) ∷ []))
    × ((c'.alarm_result ≡ pos 1) ↔ (
        (can_cancel manager (seen_frame room_channel first 7 (pos 3 ∷ []) []) ≡ false)
        × (¬ OnCooldown manager (pos 1) 100)
        × AnyRule (Fires 1 (seen_frame room_channel first 7 (pos 3 ∷ []) [])) (rule ∷ [])))
turn-raises_iff_example =
    turn-raises_iff 1 room_channel manager world first 7 (pos 3 ∷ []) (rule ∷ []) [] (ground arith)
      refl refl (rule-IsReady, tt)
