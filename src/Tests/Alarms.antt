-- ===== src/Tests/Alarms.antt =====
-- Calls of `process_channel_alarms` on the test data.
use multi_cctv_object_detect.Prelude.{
  some, ℤ, pos, negsuc, true, [], ◌∷◌, ◌≡◌, refl, Bytes, codes, arith, ok, find_key, put_key, words,
  is_space, stoi,
}
use multi_cctv_object_detect.AlarmManager.{
  first_rule, context_at, World, process_channel_alarms, number_alarms,
}
use multi_cctv_object_detect.AlarmManager.Rules.{IsReady}
use multi_cctv_object_detect.Prelude.{set_elem}
use multi_cctv_object_detect.Server.{no_mutes, post_control}
use multi_cctv_object_detect.Server.Silence.{post_control-silences}
use multi_cctv_object_detect.Tests.{rule, manager, world, first, after_first, world_after, next}
use multi_cctv_object_detect.AlarmManager.{
  can_cancel, is_staff_detected, is_on_cooldown, check_rules, first_rule, rule_holds, raise_alarm,
  start_cooldown, next_id,
}
use multi_cctv_object_detect.Alarm.{
  Alarm, define_alarm, eval_history, eval_item, eval_tokens, eval_token, all_true, contains,
}
use multi_cctv_object_detect.Alarm.Compile.{compiled, rpn, body, pending}
use multi_cctv_object_detect.Prelude.{◌+◌, ◌%◌}
use multi_cctv_object_detect.Mqtt.{alarm_payload}
use multi_cctv_object_detect.AlarmManager.{new_manager}
use multi_cctv_object_detect.AlarmManager.Raise.{raised_world}
use multi_cctv_object_detect.AlarmManager.Spacing.{Run, start, call, Spaced, Run-Spaced}
use multi_cctv_object_detect.AlarmManager.Ids.{id_count, Run-id, process-sends, restart-reuses_id}
use multi_cctv_object_detect.Tests.{client, raised_alarm, rule-IsRule, fallen-Plain}

pub first_call : process_channel_alarms 2 manager world first ≡ ok (pos 1, after_first, world_after)
unfolding process_channel_alarms number_alarms can_cancel is_staff_detected is_on_cooldown
    check_rules first_rule rule_holds raise_alarm start_cooldown next_id define_alarm eval_history
    eval_item eval_tokens eval_token all_true contains find_key compiled rpn body pending words
    is_space stoi
first_call = refl

second_call :
    process_channel_alarms 2 after_first world_after next ≡ ok (negsuc 0, after_first, world_after)
unfolding process_channel_alarms can_cancel is_staff_detected is_on_cooldown find_key next_id
    put_key
second_call = refl

rule-IsReady : IsReady manager.alarm_context rule
rule-IsReady = record {
  rule = rule-IsRule;
  plain = fallen-Plain;
  has_context = (codes "nurse", refl);
}

one_call : Run 2 manager world after_first world_after ((first, pos 1) ∷ [])
one_call = call first (pos 1) after_first world_after start (ground arith) tt first_call

two_calls : Run 2 manager world after_first world_after ((next, negsuc 0) ∷ (first, pos 1) ∷ [])
two_calls =
    call next (negsuc 0) after_first world_after one_call (ground arith) (ground arith) second_call

Run-Spaced_example : Spaced (pos 120) ((next, negsuc 0) ∷ (first, pos 1) ∷ [])
Run-Spaced_example = Run-Spaced 2 manager world refl two_calls

Run-id_example : after_first.id ≡ (41 + 1) % id_count
Run-id_example = Run-id 2 manager world (ground arith) two_calls

process-sends_example :
    (a : Alarm) × (alarm_id : ℤ) × (message : Bytes) × (first_rule 2 first manager.alarms
      ≡ ok (some a))
    × (a.alarm_id ≡ some alarm_id)
    × (context_at manager.alarm_context alarm_id ≡ ok message)
    × (world_after.published
        ≡ record {
          topic = codes "CCTV/Alarm";
          payload = alarm_payload (record {
            id = manager.id;
            camera_id = first.channel_id;
            alarm_id = alarm_id;
            destination = first.robot_destination;
            camera_description = first.camera_description;
            detected_ids = first.detected_classes;
            situation = a.alarm_sentence;
            message = message;
            created_at = first.created_at;
          });
          qos = 1;
        }
          ∷ [])
process-sends_example =
    process-sends 2 manager world first after_first world_after client first_call refl refl refl

restart-reuses_id_example : (new_manager world_after.id_file 0 (pos 180)).id ≡ 41
restart-reuses_id_example =
    restart-reuses_id 2 manager world first after_first world_after 0 (pos 180) first_call refl

-- The channel muted.
abbrev muted_world : World
muted_world = record world { mutes = set_elem no_mutes 1 true }

abbrev muted_after : World
muted_after = raised_world manager muted_world first raised_alarm (pos 1) (codes "nurse")

muted_call :
    process_channel_alarms 2 manager muted_world first ≡ ok (pos 1, after_first, muted_after)
unfolding process_channel_alarms number_alarms can_cancel is_staff_detected is_on_cooldown
    check_rules first_rule rule_holds raise_alarm start_cooldown next_id define_alarm eval_history
    eval_item eval_tokens eval_token all_true contains find_key compiled rpn body pending words
    is_space stoi
muted_call = refl

post_control-silences_example : muted_after.published ≡ []
unfolding post_control
post_control-silences_example =
    post_control-silences 2 manager muted_world first (pos 1) after_first muted_after no_mutes 1
      refl (ground arith) (ground arith) refl refl muted_call
