-- ===== src/AlarmFile/RoundTrip.antt =====
-- src/config/configHandler.cpp: `read_conf` on a rendered alarm file.
use mathlib.Core.List.{reverse}
use multi_cctv_object_detect.Prelude.{
  ℕ, ℤ, pos, true, false, ◌||◌, List, [], ◌∷◌, ◌++◌, map, ◌≡◌, refl, sym, ap, ◌∙◌, append_assoc,
  append-nil, Bytes, codes, is_digit, is_space, stoi, digits_value, All, All-append, arith, Option,
  none, some, Result, ok, ◌>>=◌, ◌==◌,
}
use multi_cctv_object_detect.Handler.{
  is_leading_char, is_trailing_char, start_with, make_space, postfix,
}
use multi_cctv_object_detect.Handler.Split.{
  Lacks, Stops, unlines, split-unlines, split-sep, split-last, strip-bracketed,
}
use multi_cctv_object_detect.Alarm.{
  Alarm, new_alarm, set_name, set_alarm_id, set_target_channel, set_alarm_sentence, set_condition,
}
use multi_cctv_object_detect.Alarm.Syntax.{print, IsClass}
use multi_cctv_object_detect.Alarm.Compile.{compiled, postfix-print}
use multi_cctv_object_detect.Alarm.Evaluate.{stoi-class}
use multi_cctv_object_detect.AlarmFile.{
  ConfReader, push_current, second_token, read_line, read_lines, read_conf,
}
use multi_cctv_object_detect.AlarmFile.Render.{
  Rule, rule_lines, file_lines, alarm_of, IsRule, class-Lacks-feed, class-Lacks-colon,
  StartsCondition, print-StartsCondition, print-Lacks-feed,
}

second_token-value :
    (key value : Bytes)
    → Lacks b':' key
    → Lacks b':' value
    → second_token (key ++ b':' ∷ (32 ∷ value)) ≡ ok (32 ∷ value)
second_token-value key value hk hv =
    rw (split-sep b':' key (32 ∷ value) hk, split-last b':' (32 ∷ value) (cc) (refl, hv))

stoi-blank : (w : Bytes) → IsClass w → stoi (32 ∷ w) ≡ ok (pos (digits_value 0 w))
stoi-blank w h = unfold stoi is_space in stoi-class w h

abbrev reader : Option Alarm → List Alarm → ConfReader
reader a alarms = record { current = a; alarms = alarms }

other_bytes :
    (c : ℕ)
    → (is_digit c || c == b'n' || c == b'(') ≡ true
    → ((c == b'/') ≡ false)
      × ((c == b'#') ≡ false)
      × ((c == b'[') ≡ false)
      × ((c == b'a') ≡ false)
      × ((c == b't') ≡ false)
      × ((c == b'A') ≡ false)
other_bytes c h = ground arith

module _ (a : Alarm) (alarms : List Alarm) where
  read_line-channel :
      (w : Bytes)
      → IsClass w
      → read_line (codes "target_channel : " ++ w) (reader (some a) alarms)
        ≡ ok (reader (some (set_target_channel a (pos (digits_value 0 w)))) alarms)
  unfolding read_line start_with
  read_line-channel w h = rw (
    second_token-value (codes "target_channel ") w (ground arith) (class-Lacks-colon w h),
    stoi-blank w h,
  )

  read_line-number :
      (w : Bytes)
      → IsClass w
      → read_line (codes "alarm_id : " ++ w) (reader (some a) alarms)
        ≡ ok (reader (some (set_alarm_id a (pos (digits_value 0 w)))) alarms)
  unfolding read_line start_with
  read_line-number w h = rw (
    second_token-value (codes "alarm_id ") w (ground arith) (class-Lacks-colon w h),
    stoi-blank w h,
  )

  read_line-sentence :
      (s : Bytes)
      → Lacks b':' s
      → read_line (codes "Alarm Sentence : " ++ s) (reader (some a) alarms)
        ≡ ok (reader (some (set_alarm_sentence a (32 ∷ s))) alarms)
  unfolding read_line start_with
  read_line-sentence s h = rw (second_token-value (codes "Alarm Sentence ") s (ground arith) h)

  -- A line that begins like a condition is handed to `make_space` and `postfix`.
  read_line-other :
      (line s : Bytes)
      → StartsCondition line
      → postfix (make_space line) ≡ ok s
      → read_line line (reader (some a) alarms) ≡ ok (reader (some (set_condition a s)) alarms)
  unfolding read_line start_with
  read_line-other [] s h e = elim h [ ]
  read_line-other (c ∷ line) s h e =
      let (slash, hash, bracket, a_low, t_low, a_up) = other_bytes c h in
      rw (slash, hash, bracket, a_low, t_low, a_up, e)

  read_line-name :
      (name : Bytes)
      → Stops is_leading_char name
      → Stops is_trailing_char (reverse name)
      → (old : Option Alarm)
      → read_line (b'[' ∷ (name ++ b']' ∷ [])) (reader old alarms)
        ≡ ok (reader (some (set_name new_alarm name)) (push_current (reader old alarms)))
  unfolding read_line start_with
  read_line-name name h k old =
      ap
        (λ (t : Bytes).
          ok (reader (some (set_name new_alarm t)) (push_current (reader old alarms))))
        (strip-bracketed name h k)

-- A rule's block ends the rule before it, and leaves the alarm that it stands for as the current
-- one.
read_lines-rule :
    (r : Rule) (rest : List Bytes) (old : Option Alarm) (alarms : List Alarm)
    → IsRule r
    → read_lines (rule_lines r ++ rest) (reader old alarms)
      ≡ read_lines rest (reader (some (alarm_of r)) (push_current (reader old alarms)))
unfolding read_lines
read_lines-rule r rest old alarms h =
    let before = push_current (reader old alarms) in
    let a0 = set_name new_alarm r.name in
    let a1 = set_target_channel a0 (pos (digits_value 0 r.channel)) in
    let a2 = set_alarm_id a1 (pos (digits_value 0 r.number)) in
    let a3 = set_alarm_sentence a2 (32 ∷ r.sentence) in
    rw (
      read_line-name a0 alarms r.name h.name_start h.name_end old,
      read_line-channel a0 before r.channel h.channel_number,
      read_line-number a1 before r.number h.alarm_number,
      read_line-sentence a2 before r.sentence h.sentence_part,
      read_line-other a3 before (print r.condition) (compiled r.condition)
          (print-StartsCondition r.condition h.spelled) (postfix-print r.condition h.spelled),
    )

abbrev finish : ConfReader → Result (ℤ × List Alarm)
finish r = ok (pos 1, push_current r)

read_lines-rules :
    (rules : List Rule) (old : Option Alarm) (alarms : List Alarm)
    → All IsRule rules
    → (read_lines (file_lines rules) (reader old alarms) >>= finish)
      ≡ ok (pos 1, push_current (reader old alarms) ++ map alarm_of rules)
unfolding read_lines
read_lines-rules [] old alarms h = ap (λ (t : List Alarm). ok (pos 1, t)) (sym (append-nil _))
read_lines-rules (r ∷ rules) old alarms (h, hs) =
    rw (read_lines-rule r (file_lines rules) old alarms h) (
      read_lines-rules rules (some (alarm_of r)) (push_current (reader old alarms)) hs
      ∙ ap (λ (t : List Alarm). ok (pos 1, t))
          (append_assoc (push_current (reader old alarms)) (alarm_of r ∷ []) (map alarm_of rules)))

rule_lines-All : (r : Rule) → IsRule r → All (Lacks 10) (rule_lines r)
rule_lines-All r h = (
  (refl, All-append _ r.name (b']' ∷ []) h.name_line (refl, tt)),
  (
    All-append _ (codes "target_channel : ") r.channel (ground arith)
        (class-Lacks-feed r.channel h.channel_number),
    (
      All-append _ (codes "alarm_id : ") r.number (ground arith)
          (class-Lacks-feed r.number h.alarm_number),
      (
        All-append _ (codes "Alarm Sentence : ") r.sentence (ground arith) h.sentence_line,
        (print-Lacks-feed r.condition h.spelled, tt),
      ),
    ),
  ),
)

file_lines-All : (rules : List Rule) → All IsRule rules → All (Lacks 10) (file_lines rules)
file_lines-All [] h = tt
file_lines-All (r ∷ rules) (h, hs) =
    All-append (Lacks 10) (rule_lines r) (file_lines rules) (rule_lines-All r h)
      (file_lines-All rules hs)

-- An alarm file that has a well-formed block for each rule is read without a fault: `read_conf`
-- returns 1, keeps the alarms that were there, and adds one alarm for each rule, in order, with its
-- name, channel, number and sentence, and its condition in postfix form.
pub read_conf-render :
    (rules : List Rule) (alarms : List Alarm)
    → All IsRule rules
    → read_conf (some (unlines (file_lines rules))) alarms
      ≡ ok (pos 1, alarms ++ map alarm_of rules)
unfolding read_conf
read_conf-render rules alarms h =
    rw (split-unlines (file_lines rules) (file_lines-All rules h))
      (read_lines-rules rules none alarms h)
