-- ===== src/Tests/Conditions.antt =====
-- Conditions and alarm files of the test data.
use multi_cctv_object_detect.Prelude.{
  pos, ◌≤◌, Bool, true, false, not, ◌&&◌, ◌||◌, [], ◌∷◌, ◌≡◌, ◌↔◌, refl, some, codes, ok, ◌>>=◌,
  All, length, words, is_space,
}
use multi_cctv_object_detect.Handler.{make_space, postfix}
use multi_cctv_object_detect.Alarm.{define_alarm, eval_item, new_alarm}
use multi_cctv_object_detect.Alarm.Syntax.{
  Condition, cls, negated, group, single, either, print, holds, SpelledOperand, PlainOperand,
  reads_operand, reads,
}
use multi_cctv_object_detect.Alarm.Tokens.{tokens}
use multi_cctv_object_detect.Alarm.Meaning.{last_frames, define_alarm-print}
use multi_cctv_object_detect.Alarm.Misread.{seen, not_group-either, braces_regroup}
use multi_cctv_object_detect.AlarmFile.{read_conf}
use multi_cctv_object_detect.Handler.Split.{unlines}
use multi_cctv_object_detect.AlarmFile.Render.{file_lines, alarm_of}
use multi_cctv_object_detect.AlarmFile.RoundTrip.{read_conf-render}
use multi_cctv_object_detect.Tests.{
  fallen, rule, item, fallen-Spelled, fallen-Plain, rule-IsRule, three-IsClass, five-IsClass,
  ten-IsClass,
}

define_alarm-print_example :
    (b : Bool) × ((postfix (make_space (print fallen)) >>= λ s. define_alarm 2 s (item ∷ item ∷ []))
      ≡ ok b)
    × ((b ≡ true) ↔ (
        (2 ≤ length (item ∷ item ∷ []))
        × All (λ i. holds i.detected_classes fallen ≡ true) (last_frames 2 (item ∷ item ∷ []))))
define_alarm-print_example =
    define_alarm-print 2 fallen (item ∷ item ∷ []) fallen-Spelled fallen-Plain

read_conf-render_example :
    read_conf (some (unlines (file_lines (rule ∷ rule ∷ [])))) (new_alarm ∷ [])
    ≡ ok (pos 1, new_alarm ∷ alarm_of rule ∷ alarm_of rule ∷ [])
read_conf-render_example =
    read_conf-render (rule ∷ rule ∷ []) (new_alarm ∷ []) (rule-IsRule, (rule-IsRule, tt))

abbrev five : Condition
five = single (cls (codes "5"))

abbrev ten : Condition
ten = single (cls (codes "10"))

not_group-either_example :
    (postfix (make_space (print (single (negated (group (either (cls (codes "3")) five))))))
      >>= λ s. eval_item s (pos 5 ∷ []))
    ≡ ok (not (seen (pos 5 ∷ []) (codes "3")) || holds (pos 5 ∷ []) five)
unfolding SpelledOperand PlainOperand
not_group-either_example =
    not_group-either (codes "3") five (pos 5 ∷ []) three-IsClass five-IsClass tt

-- `{ 3 and { 5 } } or 10` for a frame with class 10 only: the program finds it false.
braces_regroup_example :
    (postfix (codes "{ 3 and { 5 } } or 10") >>= λ t. eval_item t (pos 10 ∷ []))
    ≡ ok (
        reads_operand (pos 10 ∷ []) false (cls (codes "3"))
        && (reads (pos 10 ∷ []) false five || reads (pos 10 ∷ []) false ten))
unfolding SpelledOperand words is_space tokens
braces_regroup_example =
    braces_regroup (cls (codes "3")) five ten three-IsClass five-IsClass ten-IsClass
      (codes "{ 3 and { 5 } } or 10") (pos 10 ∷ []) refl
