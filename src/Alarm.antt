-- ===== src/Alarm.antt =====
-- src/alarm/alarm.cpp and include/alarm/alarm.h: an alarm rule, and `define_alarm`, which decides
-- whether the last frames of a channel satisfy a rule's condition in postfix form.
-- The constructor leaves the numbers of an `Alarm` unset: they are `none` until a setter is called,
-- and to read one of them before is undefined.
-- `frames_to_check` is declared nowhere in the repository: it is a parameter.
pub mod Syntax
pub mod Tokens
pub mod Compile
pub mod Evaluate
pub mod Meaning
pub mod Misread
use multi_cctv_object_detect.Prelude.{
  ℕ, ℤ, ◌-◌, Bool, true, false, not, ◌&&◌, ◌||◌, List, [], ◌∷◌, Option, none, some, Bytes, codes,
  starts_digit, bytes_eq, words, stoi, ◌==ℤ◌, ltb, if◌then◌else◌, length, drop, Result, ok, err,
  undefined, or_undefined, ◌>>=◌,
}

-- include/global.h
pub record DetectedHistoryItem : Type 0 where
  pub time : ℕ
  pub detected_classes : List ℤ

pub record Alarm : Type 0 where
  pub id : Option ℤ
  pub target_channel : Option ℤ
  pub name : Bytes
  pub alarm_sentence : Bytes
  pub condition : Bytes
  pub alarm_id : Option ℤ
  pub alarm_context : List (ℤ × Bytes)

-- `Alarm()`
abbrev pub new_alarm : Alarm
new_alarm = record {
  id = none;
  target_channel = none;
  name = [];
  alarm_sentence = [];
  condition = [];
  alarm_id = none;
  alarm_context = [];
}

-- `Alarm(target_channel, des, cond, r_lv)`
abbrev make_alarm : ℤ → Bytes → Bytes → ℤ → Alarm
make_alarm channel des cond r_lv = record new_alarm {
  target_channel = some channel;
  name = des;
  condition = cond;
  alarm_id = some r_lv;
}

abbrev pub set_target_channel : Alarm → ℤ → Alarm
set_target_channel a channel = record a { target_channel = some channel }

abbrev pub set_name : Alarm → Bytes → Alarm
set_name a des = record a { name = des }

abbrev pub set_condition : Alarm → Bytes → Alarm
set_condition a cond = record a { condition = cond }

abbrev pub set_alarm_id : Alarm → ℤ → Alarm
set_alarm_id a r_lv = record a { alarm_id = some r_lv }

abbrev pub set_alarm_sentence : Alarm → Bytes → Alarm
set_alarm_sentence a s = record a { alarm_sentence = s }

abbrev set_alarm_context : Alarm → List (ℤ × Bytes) → Alarm
set_alarm_context a context = record a { alarm_context = context }

abbrev pub set_id : Alarm → ℤ → Alarm
set_id a id = record a { id = some id }

abbrev pub get_target_channel : Alarm → Result ℤ
get_target_channel a = or_undefined a.target_channel

abbrev pub get_alarm_id : Alarm → Result ℤ
get_alarm_id a = or_undefined a.alarm_id

-- `classElement.count(n) != 0`
unfoldable pub contains : List ℤ → ℤ → Bool
contains [] n = false
contains (x ∷ xs) n = x ==ℤ n || contains xs n

-- `value_stack` and `isNot`.
pub record Machine : Type 0 where
  pub values : List Bool
  pub is_not : Bool

abbrev pub machine : List Bool → Bool → Machine
machine vs b = record { values = vs; is_not = b }

-- `top` and `pop` twice, then `push` of the two values joined.
abbrev join_values : (Bool → Bool → Bool) → List Bool → Result (List Bool)
join_values f [] = err undefined
join_values f (val2 ∷ []) = err undefined
join_values f (val2 ∷ val1 ∷ vs) = ok (f val1 val2 ∷ vs)

-- One round of `while (ss >> token)`.
unfoldable pub eval_token : List ℤ → Bytes → Machine → Result Machine
eval_token classes token m =
    if starts_digit token
    then (stoi token >>= λ n.
        let t = contains classes n in
        ok (machine ((if m.is_not then not t else t) ∷ m.values) false))
    else if bytes_eq token (codes "and")
    then (join_values ◌&&◌ m.values >>= λ vs. ok (machine vs m.is_not))
    else if bytes_eq token (codes "or")
    then (join_values ◌||◌ m.values >>= λ vs. ok (machine vs m.is_not))
    else if bytes_eq token (codes "not")
    then ok (machine m.values true)
    else ok m

unfoldable pub eval_tokens : List ℤ → List Bytes → Machine → Result Machine
eval_tokens classes [] m = ok m
eval_tokens classes (token ∷ ts) m = eval_token classes token m >>= eval_tokens classes ts

-- `value_stack.top()`
abbrev pub top : List Bool → Result Bool
top [] = err undefined
top (b ∷ vs) = ok b

-- The value that one frame pushes on `history_result`.
unfoldable pub eval_item : Bytes → List ℤ → Result Bool
unfolding eval_tokens
eval_item condition classes = do
  m ← eval_tokens classes (words condition) (machine [] false)
  top m.values

unfoldable pub eval_history : Bytes → List DetectedHistoryItem → Result (List Bool)
eval_history condition [] = ok []
eval_history condition (item ∷ items) = do
  b ← eval_item condition item.detected_classes
  bs ← eval_history condition items
  ok (b ∷ bs)

-- The loop from `i = size - frames_to_check`, with its `break`.
unfoldable pub all_true : List Bool → Bool
all_true [] = true
all_true (b ∷ bs) = let rest = all_true bs in if not b then false else rest

-- `persist_seconds` is not used by the source: it is left out.
unfoldable pub define_alarm : ℕ → Bytes → List DetectedHistoryItem → Result Bool
unfolding eval_history all_true
define_alarm frames_to_check [] history = ok false
define_alarm frames_to_check (c ∷ condition) history = do
  history_result ← eval_history (c ∷ condition) history
  let size = length history_result
  if ltb size frames_to_check
      then ok false
      else ok (all_true (drop (size - frames_to_check) history_result))
