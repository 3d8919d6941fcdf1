-- ===== src/AlarmFile/Render.antt =====
-- The text of an alarm file with one block for each rule, in the form that the comments of
-- resource/alarm.conf give.
use mathlib.Core.List.{reverse}
use multi_cctv_object_detect.Prelude.{
  ℕ, pos, true, false, ◌||◌, List, [], ◌∷◌, ◌++◌, ◌≡◌, ◌==◌, refl, Bytes, codes, is_digit,
  All-append, All-map, arith, digits_value, none, some,
}
use multi_cctv_object_detect.Handler.{is_leading_char, is_trailing_char}
use multi_cctv_object_detect.Handler.Split.{Lacks, Stops}
use multi_cctv_object_detect.Alarm.{Alarm}
use multi_cctv_object_detect.Alarm.Syntax.{
  Operand, Condition, cls, negated, group, single, both, either, print_operand, print, IsClass,
  SpelledOperand, Spelled,
}
use multi_cctv_object_detect.Alarm.Compile.{compiled}

pub record Rule : Type 0 where
  pub name : Bytes
  pub channel : Bytes
  pub number : Bytes
  pub sentence : Bytes
  pub condition : Condition

abbrev pub rule_lines : Rule → List Bytes
rule_lines r =
    (b'[' ∷ (r.name ++ b']' ∷ []))
    ∷ (codes "target_channel : " ++ r.channel)
    ∷ (codes "alarm_id : " ++ r.number)
    ∷ (codes "Alarm Sentence : " ++ r.sentence)
    ∷ print r.condition
    ∷ []

abbrev pub file_lines : List Rule → List Bytes
file_lines [] = []
file_lines (r ∷ rules) = rule_lines r ++ file_lines rules

-- The alarm that a rule stands for. The sentence keeps the blank behind the colon.
abbrev pub alarm_of : Rule → Alarm
alarm_of r = record {
  id = none;
  target_channel = some (pos (digits_value 0 r.channel));
  name = r.name;
  alarm_sentence = 32 ∷ r.sentence;
  condition = compiled r.condition;
  alarm_id = some (pos (digits_value 0 r.number));
  alarm_context = [];
}

-- The parts that a rule's lines can hold: a name with no blank or bracket at its ends, numbers in
-- digits, a sentence with no colon, and no line feed inside.
pub record IsRule (r : Rule) : Type 0 where
  pub name_start : Stops is_leading_char r.name
  pub name_end : Stops is_trailing_char (reverse r.name)
  pub name_line : Lacks 10 r.name
  pub channel_number : IsClass r.channel
  pub alarm_number : IsClass r.number
  pub sentence_part : Lacks b':' r.sentence
  pub sentence_line : Lacks 10 r.sentence
  pub spelled : Spelled r.condition

digit-not-feed : (c : ℕ) → is_digit c ≡ true → (c == 10) ≡ false
digit-not-feed c h = ground arith

digit-not-colon : (c : ℕ) → is_digit c ≡ true → (c == b':') ≡ false
digit-not-colon c h = ground arith

pub class-Lacks-feed : (w : Bytes) → IsClass w → Lacks 10 w
class-Lacks-feed w h =
    All-map (λ c. is_digit c ≡ true) (λ c. (c == 10) ≡ false) w digit-not-feed h.0

pub class-Lacks-colon : (w : Bytes) → IsClass w → Lacks b':' w
class-Lacks-colon w h =
    All-map (λ c. is_digit c ≡ true) (λ c. (c == b':') ≡ false) w digit-not-colon h.0

mutual
  unfolding print_operand SpelledOperand

  operand-Lacks-feed : (o : Operand) → SpelledOperand o → Lacks 10 (print_operand o)
  operand-Lacks-feed (cls w) h = class-Lacks-feed w h
  operand-Lacks-feed (negated o) h =
      All-append _ (codes "not ") (print_operand o) (ground arith) (operand-Lacks-feed o h)
  operand-Lacks-feed (group c) h =
      (refl, All-append _ (print c) (b')' ∷ []) (condition-Lacks-feed c h) (refl, tt))

  condition-Lacks-feed : (c : Condition) → Spelled c → Lacks 10 (print c)
  condition-Lacks-feed (single o) h = operand-Lacks-feed o h
  condition-Lacks-feed (both o c) (ho, hc) =
      All-append _ (print_operand o) _ (operand-Lacks-feed o ho)
        (All-append _ (codes " and ") (print c) (ground arith) (condition-Lacks-feed c hc))
  condition-Lacks-feed (either o c) (ho, hc) =
      All-append _ (print_operand o) _ (operand-Lacks-feed o ho)
        (All-append _ (codes " or ") (print c) (ground arith) (condition-Lacks-feed c hc))

-- The first byte of a condition: a digit, the `n` of `not`, or a parenthesis.
abbrev pub StartsCondition : Bytes → Type 0
StartsCondition [] = ⊥
StartsCondition (c ∷ s) = (is_digit c || c == b'n' || c == b'(') ≡ true

StartsCondition-append : (s t : Bytes) → StartsCondition s → StartsCondition (s ++ t)
StartsCondition-append [] t h = elim h [ ]
StartsCondition-append (c ∷ s) t h = h

StartsCondition-class : (w : Bytes) → IsClass w → StartsCondition w
StartsCondition-class [] (_, ne, _) = absurd (ne refl)
StartsCondition-class (c ∷ w) ((h, _), _, _) = ground arith

mutual
  unfolding print_operand SpelledOperand

  operand-StartsCondition : (o : Operand) → SpelledOperand o → StartsCondition (print_operand o)
  operand-StartsCondition (cls w) h = StartsCondition-class w h
  operand-StartsCondition (negated o) h = refl
  operand-StartsCondition (group c) h = refl

  condition-StartsCondition : (c : Condition) → Spelled c → StartsCondition (print c)
  condition-StartsCondition (single o) h = operand-StartsCondition o h
  condition-StartsCondition (both o c) (ho, hc) =
      StartsCondition-append (print_operand o) _ (operand-StartsCondition o ho)
  condition-StartsCondition (either o c) (ho, hc) =
      StartsCondition-append (print_operand o) _ (operand-StartsCondition o ho)

pub print-StartsCondition : (c : Condition) → Spelled c → StartsCondition (print c)
print-StartsCondition c h = condition-StartsCondition c h

pub print-Lacks-feed : (c : Condition) → Spelled c → Lacks 10 (print c)
print-Lacks-feed c h = condition-Lacks-feed c h
