-- ===== src/Boot/Runs.antt =====
-- src/main.cpp: a start with readable settings, and the turns of the channels after it.
use multi_cctv_object_detect.Prelude.{
  ℕ, ℤ, pos, pos_part, ◌≤◌, Bool, true, List, ◌≡◌, some, Bytes, codes, stoi, digits_value, Result,
  ok,
}
use multi_cctv_object_detect.Alarm.Syntax.{Plain}
use multi_cctv_object_detect.Handler.Split.{unlines}
use multi_cctv_object_detect.AlarmFile.Render.{Rule, IsRule, file_lines}
use multi_cctv_object_detect.AlarmManager.{AlarmManager, set_cooltime, set_persist_time}
use multi_cctv_object_detect.AlarmManager.Loaded.{with_rules}
use multi_cctv_object_detect.Channel.{CameraChannel}
use multi_cctv_object_detect.Boot.{
  Ini, interval_text, cooltime_text, persist_text, window_count_text, alarm_num_text, number_text,
  camera_text, port_text, width_text, height_text, RoutineSettings, start_routine, contexts,
  Outside, global_manager,
}

-- The numbers that the settings spell.
pub record Numbers : Type 0 where
  pub interval : ℤ
  pub cooltime : ℤ
  pub persist_time : ℕ
  pub windows : ℤ
  pub alarm_num : ℤ

-- A text is read as a number.
abbrev pub IsNumber : Bytes → Type 0
IsNumber text = (n : ℤ) × (stoi text ≡ ok n)

-- The texts of the settings that `main` and `routine` read as numbers can be read.
pub record Readable (stof : Bytes → Result ℕ) (get : Ini) (s : Numbers) : Type 0 where
  pub interval_read : stoi (interval_text get) ≡ ok s.interval
  pub cooltime_read : stoi (cooltime_text get) ≡ ok s.cooltime
  pub persist_read : stof (persist_text get) ≡ ok s.persist_time
  pub windows_read : stoi (window_count_text get) ≡ ok s.windows
  pub alarm_num_read : stoi (alarm_num_text get) ≡ ok s.alarm_num
  pub number_read : (i : ℕ) → IsNumber (number_text get i)
  pub port_read : IsNumber (port_text get)
  pub width_read : IsNumber (width_text get)
  pub height_read : IsNumber (height_text get)
  pub description_read : (i : ℕ) → IsNumber (camera_text get (codes "Camera Description") (pos i))

-- The thread of a channel comes to its loop.
abbrev pub Starts : Ini → Result Bool → CameraChannel → Type 0
Starts get net c = (settings : RoutineSettings) × (start_routine get net c ≡ ok (some settings))

-- A well-formed rule with `not` in front of class numbers only, and one of the numbers 1 to `AlarmNum`.
pub record IsServed (alarm_num : ℤ) (r : Rule) : Type 0 where
  pub rule : IsRule r
  pub plain : Plain r.condition
  pub first : 1 ≤ digits_value 0 r.number
  pub last : digits_value 0 r.number ≤ pos_part alarm_num

-- The two semaphores open, and the alarm file has the rules.
pub record Opens (o : Outside) (rules : List Rule) : Type 0 where
  pub image : o.image_semaphore ≡ true
  pub inference : o.inference_semaphore ≡ true
  pub file : o.conf_file ≡ some (unlines (file_lines rules))

-- The manager when the threads start.
abbrev booted_manager : Ini → Outside → Numbers → List Rule → AlarmManager
booted_manager get o s rules =
    record (set_persist_time (set_cooltime (with_rules (global_manager o) rules) s.cooltime)
      s.persist_time) { alarm_context = contexts get 1 (pos_part s.alarm_num) }
