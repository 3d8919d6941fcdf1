-- ===== src/Tests/Watching.antt =====
-- The turns of a channel that detected somebody once, then nothing, then somebody again.
use multi_cctv_object_detect.Prelude.{pos, [], ◌∷◌, ◌++◌, ◌≡◌, ◌↔◌, codes, arith, ok}
use multi_cctv_object_detect.Channel.{CameraChannel, no_frame}
use multi_cctv_object_detect.Channel.Alarms.{seen_frame}
use multi_cctv_object_detect.Channel.Recent.{items_of}
use multi_cctv_object_detect.Channel.Watch.{
  Input, images_of, watch, detecting, Raises, watch-Raises_iff,
}
use multi_cctv_object_detect.Tests.{rule, manager, world, first}
use multi_cctv_object_detect.Tests.Rounds.{manager-HasRules}
use multi_cctv_object_detect.Tests.Turns.{room_channel}

abbrev unanswered_turn : Input
unanswered_turn = record { manager = manager; world = world; frame = first; image = no_frame }

watch-Raises_iff_example :
    (c' : CameraChannel) × (watch 2 room_channel (
        (detecting manager world first 7 (pos 3 ∷ []) ∷ unanswered_turn ∷ [])
        ++ detecting manager world first 9 (pos 3 ∷ []) ∷ [])
      ≡ ok c')
    × ((c'.alarm_result ≡ pos 1)
        ↔ Raises 2 (rule ∷ []) manager (pos 1) first (
            seen_frame room_channel first 9 (pos 3 ∷ []) (
              items_of
                (images_of (detecting manager world first 7 (pos 3 ∷ []) ∷ unanswered_turn ∷ [])))))
watch-Raises_iff_example =
    watch-Raises_iff 2 (ground arith) (rule ∷ []) (pos 1) (pos 101) (codes "room") (codes "bed")
      (detecting manager world first 7 (pos 3 ∷ []) ∷ unanswered_turn ∷ []) manager world first 9
      (pos 3 ∷ []) manager-HasRules (manager-HasRules, (manager-HasRules, tt))
