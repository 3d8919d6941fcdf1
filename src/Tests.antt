-- ===== src/Tests.antt =====
-- Test data: one rule for channel 1, a manager that has loaded it, and frames of that channel.
pub mod Alarms
pub mod Conditions
pub mod Parts
pub mod Turns
pub mod Objects
pub mod Program
pub mod Server
pub mod Waiting
pub mod Interleaving
pub mod Pictures
pub mod Cameras
pub mod Window
pub mod Folder
pub mod Rounds
pub mod Tasks
pub mod Loops
pub mod Web
pub mod Watching
use multi_cctv_object_detect.Prelude.{
  ℕ, ℤ, pos, negsuc, Bool, true, false, List, [], ◌∷◌, map, Option, none, some, Bytes, codes, arith,
  refl, is_space,
}
use multi_cctv_object_detect.Alarm.{DetectedHistoryItem, Alarm, set_id}
use multi_cctv_object_detect.Alarm.Syntax.{
  Condition, cls, single, both, either, group, negated, IsClass, Spelled, SpelledOperand, Plain,
  PlainOperand,
}
use multi_cctv_object_detect.AlarmFile.Render.{Rule, alarm_of, IsRule}
use multi_cctv_object_detect.Log.{new_log}
use multi_cctv_object_detect.Mqtt.{MqttManager, Client}
use multi_cctv_object_detect.AlarmManager.{
  AlarmManager, World, Frame, new_manager, number_alarms, second,
}
use multi_cctv_object_detect.AlarmManager.Raise.{raised, raised_world}
use multi_cctv_object_detect.Server.{no_mutes}

-- `3 and ( 5 or not 10 )`
abbrev pub fallen : Condition
fallen =
    both (cls (codes "3"))
      (single (group (either (cls (codes "5")) (single (negated (cls (codes "10")))))))

abbrev pub rule : Rule
rule = record {
  name = codes "fallen";
  channel = codes "1";
  number = codes "1";
  sentence = codes "fallen";
  condition = fallen;
}

abbrev pub item : DetectedHistoryItem
item = record { time = 7; detected_classes = pos 3 ∷ [] }

abbrev pub client : Client
client = record {
  server = codes "tcp";
  client_id = codes "CCTV";
  options = record {
    keep_alive_interval = 20;
    clean_session = true;
    user_name = [];
    password = [];
    reconnect = none;
  };
}

abbrev connected_mqtt : MqttManager
connected_mqtt = record {
  address = codes "tcp";
  client_id = codes "CCTV";
  user_id = [];
  password = [];
  client_ = some client;
}

abbrev pub manager : AlarmManager
manager = record (new_manager (some 41) 0 (pos 120)) {
  alarms = number_alarms 1 (map alarm_of (rule ∷ []));
  alarm_context = codes "nurse" ∷ [];
}

abbrev pub world : World
world = record {
  mutes = no_mutes;
  mqtt = connected_mqtt;
  log = new_log (codes "app.log") (pos 50);
  id_file = none;
  published = [];
}

-- A frame of channel 1 at a time: class 3 in it and in the two last items of the history.
abbrev frame_at : ℕ → Frame
frame_at t = record {
  channel_id = pos 1;
  detected_classes = pos 3 ∷ [];
  history = item ∷ item ∷ [];
  camera_description = codes "room";
  robot_destination = codes "bed";
  staff_now = t;
  cooldown_now = t;
  active_now = t;
  start_now = t;
  created_at = codes "now";
  log_time = codes "now";
  is_connected = true;
  id_file_opens = true;
}

abbrev pub first : Frame
first = frame_at 100

abbrev pub raised_alarm : Alarm
raised_alarm = set_id (alarm_of rule) (pos 1)

abbrev pub after_first : AlarmManager
after_first = raised manager first

abbrev pub world_after : World
world_after = raised_world manager world first raised_alarm (pos 1) (codes "nurse")

abbrev pub next : Frame
next = frame_at 200

pub three-IsClass : IsClass (codes "3")
three-IsClass = ((refl, tt), (λ e. cc), ground arith)

pub five-IsClass : IsClass (codes "5")
five-IsClass = ((refl, tt), (λ e. cc), ground arith)

pub ten-IsClass : IsClass (codes "10")
ten-IsClass = ((refl, (refl, tt)), (λ e. cc), ground arith)

one-IsClass : IsClass (codes "1")
one-IsClass = ((refl, tt), (λ e. cc), ground arith)

pub fallen-Spelled : Spelled fallen
unfolding SpelledOperand
fallen-Spelled = (three-IsClass, (five-IsClass, ten-IsClass))

pub fallen-Plain : Plain fallen
unfolding PlainOperand
fallen-Plain = (tt, (tt, tt))

pub rule-IsRule : IsRule rule
unfolding is_space
rule-IsRule = record {
  name_start = ground arith;
  name_end = ground arith;
  name_line = ground arith;
  channel_number = one-IsClass;
  alarm_number = one-IsClass;
  sentence_part = ground arith;
  sentence_line = ground arith;
  spelled = fallen-Spelled;
}
