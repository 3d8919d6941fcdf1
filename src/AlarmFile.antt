-- ===== src/AlarmFile.antt =====
-- src/config/configHandler.cpp: `read_conf`, which reads the alarm rules of resource/alarm.conf.
-- The file is its text, or `none` where it cannot be opened.
pub mod Render
pub mod RoundTrip
use multi_cctv_object_detect.Prelude.{
  ℕ, ℤ, pos, negsuc, Bool, ◌||◌, List, [], ◌∷◌, ◌++◌, Option, none, some, Bytes, codes, stoi,
  bytes_eq, get_elem?, if◌then◌else◌, Result, ok, or_undefined, ◌>>=◌,
}
use multi_cctv_object_detect.Handler.{start_with, split, strip, make_space, postfix}
use multi_cctv_object_detect.Alarm.{
  Alarm, new_alarm, set_name, set_alarm_id, set_target_channel, set_alarm_sentence, set_condition,
}

-- The local variable `a`, and the vector `alarms`.
pub record ConfReader : Type 0 where
  pub current : Option Alarm
  pub alarms : List Alarm

-- `if (a != nullptr) alarms.push_back(*a);`
abbrev pub push_current : ConfReader → List Alarm
push_current r = elim r.current [ none ↦ r.alarms | some a ↦ r.alarms ++ a ∷ [] ]

-- A setter called through `a`, which may be null.
abbrev update : ConfReader → (Alarm → Result Alarm) → Result ConfReader
update r f = do a ← or_undefined r.current; b ← f a; ok (record r { current = some b })

-- `tokens[1]` of the line split at its colons.
abbrev pub second_token : Bytes → Result Bytes
second_token line = or_undefined (get_elem? (split line [] b':') 1)

-- One round of `while (getline(conf, line))`.
unfoldable pub read_line : Bytes → ConfReader → Result ConfReader
read_line line r =
    if start_with line (codes "//")
      || start_with line (codes "#")
      || start_with line (codes "/")
      || bytes_eq line []
    then ok r
    else if start_with line (codes "[")
    then ok (record { current = some (set_name new_alarm (strip line)); alarms = push_current r })
    else if start_with line (codes "alarm_id")
    then update r (λ a. do t ← second_token line; n ← stoi t; ok (set_alarm_id a n))
    else if start_with line (codes "target_channel")
    then update r (λ a. do t ← second_token line; n ← stoi t; ok (set_target_channel a n))
    else if start_with line (codes "Alarm Sentence")
    then update r (λ a. do t ← second_token line; ok (set_alarm_sentence a t))
    else (postfix (make_space line) >>= λ s. update r (λ a. ok (set_condition a s)))

unfoldable pub read_lines : List Bytes → ConfReader → Result ConfReader
read_lines [] r = ok r
read_lines (line ∷ lines) r = read_line line r >>= read_lines lines

-- Returns the status and the vector; lines end at the line feeds.
unfoldable pub read_conf : Option Bytes → List Alarm → Result (ℤ × List Alarm)
unfolding read_lines read_line
read_conf none alarms = ok (negsuc 0, alarms)
read_conf (some text) alarms = do
  r ← read_lines (split text [] 10) (record { current = none; alarms = alarms })
  ok (pos 1, push_current r)
