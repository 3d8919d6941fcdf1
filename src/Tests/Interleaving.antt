-- ===== src/Tests/Interleaving.antt =====
-- Two channels' threads that take their steps in turn.
use multi_cctv_object_detect.Alarm.Compile.{compiled, rpn, body, pending}
use multi_cctv_object_detect.Prelude.{
  ℕ, zero, suc, pos, List, [], ◌∷◌, ◌++◌, map, codes, ◌≡◌, refl, arith, find_key, words, is_space,
  stoi,
}
use multi_cctv_object_detect.AlarmManager.{
  AlarmManager, Frame, number_alarms, next_id, can_cancel, is_staff_detected, is_on_cooldown,
  first_rule, rule_holds,
}
use multi_cctv_object_detect.AlarmManager.Overlap.{FindsAlarm, overlap, sent_for, overlap-shares_id}
use multi_cctv_object_detect.Alarm.{
  Alarm, set_id, define_alarm, eval_history, eval_item, eval_tokens, eval_token, all_true, contains,
}
use multi_cctv_object_detect.AlarmFile.Render.{alarm_of}
use multi_cctv_object_detect.AlarmManager.Channels.{Untouched}
use multi_cctv_object_detect.AlarmManager.Steps.{returned, pick_all, calls_of}
use multi_cctv_object_detect.AlarmManager.Interleaved.{AreApart, calls-Agree}
use multi_cctv_object_detect.Tests.{
  rule, manager, world, first, after_first, world_after, raised_alarm,
}
use multi_cctv_object_detect.Tests.Alarms.{first_call}

-- Thread 0 is for channel 1, the channel of the rule.
abbrev frames : ℕ → Frame
frames i = record first { channel_id = pos (suc i) }

frames-AreApart : AreApart (λ j. (frames j).channel_id)
frames-AreApart i j h = ground arith

abbrev turns : ℕ → List ℕ
turns zero = []
turns (suc n) = 0 ∷ 1 ∷ turns n

calls-Agree_example :
    (((pick_all 2 (calls_of manager world frames) (turns 11)).threads 0).pc ≡ returned (pos 1))
    × Untouched after_first (pick_all 2 (calls_of manager world frames) (turns 11)).manager (pos 1)
calls-Agree_example =
    calls-Agree 2 manager world frames (turns 11) 0 (pos 1) after_first world_after frames-AreApart
      first_call (ground arith)

-- A second rule, for channel 2.
abbrev two_rules : AlarmManager
two_rules = record manager {
  alarms = number_alarms 1 (map alarm_of (rule ∷ record rule { channel = codes "2" } ∷ []));
}

abbrev second_rule : Alarm
second_rule = set_id (alarm_of (record rule { channel = codes "2" })) (pos 2)

zero-FindsAlarm : FindsAlarm 2 two_rules (frames 0) raised_alarm (pos 1) (codes "nurse")
unfolding number_alarms can_cancel is_staff_detected is_on_cooldown first_rule rule_holds
    define_alarm eval_history eval_item eval_tokens eval_token all_true contains find_key compiled
    rpn body pending words is_space stoi
zero-FindsAlarm = record { no_cancel = refl; no_cooldown = refl; rule = refl; texts = refl }

one-FindsAlarm : FindsAlarm 2 two_rules (frames 1) second_rule (pos 1) (codes "nurse")
unfolding number_alarms can_cancel is_staff_detected is_on_cooldown first_rule rule_holds
    define_alarm eval_history eval_item eval_tokens eval_token all_true contains find_key compiled
    rpn body pending words is_space stoi
one-FindsAlarm = record { no_cancel = refl; no_cooldown = refl; rule = refl; texts = refl }

overlap-shares_id_example :
    (((pick_all 2 (calls_of two_rules world frames) overlap).threads 0).pc ≡ returned (pos 1))
    × (((pick_all 2 (calls_of two_rules world frames) overlap).threads 1).pc ≡ returned (pos 1))
    × ((pick_all 2 (calls_of two_rules world frames) overlap).world.published
        ≡ world.published
          ++ sent_for world two_rules (frames 0) raised_alarm (pos 1) (codes "nurse")
          ++ sent_for world two_rules (frames 1) second_rule (pos 1) (codes "nurse"))
    × ((pick_all 2 (calls_of two_rules world frames) overlap).manager.id ≡ next_id 41)
overlap-shares_id_example =
    overlap-shares_id 2 two_rules world frames raised_alarm second_rule (pos 1) (pos 1)
      (codes "nurse") (codes "nurse") refl zero-FindsAlarm one-FindsAlarm
