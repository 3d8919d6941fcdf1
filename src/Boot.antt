-- ===== src/Boot.antt =====
-- src/main.cpp: `main` up to the start of the threads, with the global variables that it fills, and
-- what each channel's thread reads before its loop, and the turns of these loops.
-- The ini file is read by inih: `Ini` is its `Get`, a text for a section, a key and a default. The http
-- server is left out. `std::stof` is an argument, a `float` its bit pattern. A count is at most what an
-- `int` holds.
pub mod Runs
pub mod Described
pub mod Ready
use multi_cctv_object_detect.Prelude.{
  ℕ, zero, suc, ℤ, pos, pos_part, ◌+◌, Bool, List, [], ◌∷◌, ◌++◌, Option, none, some, Bytes, codes,
  utf8, to_string, stoi, get_elem?, set_elem, Result, ok, ◌>>=◌, if◌then◌else◌, ◌||◌,
}
use multi_cctv_object_detect.Log.{Log, new_log, push, load, info}
use multi_cctv_object_detect.Mqtt.{MqttManager, Attempt, connect}
use multi_cctv_object_detect.Server.{no_mutes}
use multi_cctv_object_detect.AlarmManager.{
  AlarmManager, World, Frame, new_manager, set_cooltime, set_persist_time, load_alarms_from_file,
}
use multi_cctv_object_detect.Channel.{CameraChannel, Image, new_channel, turn}

abbrev pub Ini : Type 0
Ini = Bytes → Bytes → Bytes → Bytes

-- The texts that `main` asks for.
abbrev pub interval_text : Ini → Bytes
interval_text get = get (codes "staff_report") (codes "interval_sec") (codes "5")

abbrev pub cooltime_text : Ini → Bytes
cooltime_text get = get (codes "Alarm Context") (codes "AlarmCooltime") (codes "180")

abbrev pub persist_text : Ini → Bytes
persist_text get = get (codes "Alarm Context") (codes "AlarmPersistTime") (codes "5.0")

abbrev pub window_count_text : Ini → Bytes
window_count_text get = get (codes "Window Configuration") (codes "total_window_count") (codes "12")

abbrev pub alarm_num_text : Ini → Bytes
alarm_num_text get = get (codes "Alarm Context") (codes "AlarmNum") (codes "6")

abbrev context_text : Ini → ℕ → Bytes
context_text get i =
    get (codes "Alarm Context") (codes "AlarmID" ++ to_string (pos i)) (utf8 "간호사 호출 중")

abbrev pub number_text : Ini → ℕ → Bytes
number_text get i =
    get (codes "CCTV Connection") (codes "window" ++ (to_string (pos i) ++ codes "_channel"))
      (codes "101")

abbrev pub camera_text : Ini → Bytes → ℤ → Bytes
camera_text get section i = get section (codes "Camera" ++ to_string i) (codes "Unknown")

abbrev pub port_text : Ini → Bytes
port_text get = get (codes "CCTV Connection") (codes "port") (codes "80")

abbrev pub width_text : Ini → Bytes
width_text get = get (codes "Window Configuration") (codes "window_width") (codes "480")

abbrev pub height_text : Ini → Bytes
height_text get = get (codes "Window Configuration") (codes "window_height") (codes "270")

-- The folders that `main` creates for the data of the channels, from `i` on with `n` rounds left.
unfoldable data_folders : Ini → ℕ → ℕ → List Bytes
data_folders get i zero = []
data_folders get i (suc n) =
    (get (codes "Developer Option") (codes "data_gathering_point") (codes "./data")
      ++ b'/' ∷ to_string (pos i))
    ∷ data_folders get (suc i) n

-- The loop that fills `alarm_context`, from `i` on with `n` rounds left.
unfoldable pub contexts : Ini → ℕ → ℕ → List Bytes
contexts get i zero = []
contexts get i (suc n) = context_text get i ∷ contexts get (suc i) n

-- The loop over the channels, from `i` on with `n` rounds left.
unfoldable pub set_channels : Ini → ℕ → ℕ → Result (List CameraChannel)
set_channels get i zero = ok []
set_channels get i (suc n) = do
  channel_number ← stoi (number_text get i)
  channels ← set_channels get (suc i) n
  ok (
      new_channel (pos i) channel_number (camera_text get (codes "Camera Description") (pos i))
        (camera_text get (codes "Robot Destination") (pos i))
      ∷ channels)

-- `MqttManager()`
abbrev new_mqtt : MqttManager
new_mqtt = record { address = []; client_id = []; user_id = []; password = []; client_ = none }

abbrev connect_mqtt : Ini → Attempt → MqttManager
connect_mqtt get answer =
    connect answer new_mqtt
      (get (codes "MQTT") (codes "BrokerIP") (codes "tcp://192.168.0.35:1883"))
      (get (codes "MQTT") (codes "ClientID") (codes "CCTV_MAIN"))
      (get (codes "MQTT") (codes "UserID") (codes "healthmon"))
      (get (codes "MQTT") (codes "Password") (codes "healthmon"))

-- What `main` meets outside: the number in id.bin, the texts of alarm.conf and of the log file where
-- they open, whether the two semaphores open, the broker's answer, and the text of the time.
pub record Outside : Type 0 where
  pub id_file : Option ℕ
  pub conf_file : Option Bytes
  pub log_file : Option Bytes
  pub image_semaphore : Bool
  pub inference_semaphore : Bool
  pub broker : Attempt
  pub log_time : Bytes

-- The global variables and `channels` when the threads start.
pub record Program : Type 0 where
  pub manager : AlarmManager
  pub world : World
  pub channels : List CameraChannel
  pub staff_report_interval : ℤ

-- `main` returns 1 where a semaphore does not open.
pub data Started : Type 0 where
  no_semaphore : Started
  started : Program → Started

-- `AlarmManager g_alarm_manager` with `persist_time = 5.0f`, `Log log_handler(log_path, 50)`.
abbrev pub global_manager : Outside → AlarmManager
global_manager o = new_manager o.id_file 0x40A0_0000 (pos 120)

abbrev global_log : Log
global_log = new_log (codes "./resource/app.log") (pos 50)

abbrev pub start_world : Ini → Outside → World
start_world get o = record {
  mutes = no_mutes;
  mqtt = connect_mqtt get o.broker;
  log = push (load global_log o.log_file) o.log_time info (utf8 "프로그램 설정 완료. 프로그램 실행") (pos 0);
  id_file = o.id_file;
  published = [];
}

-- What stands between the semaphores and the threads.
abbrev start_channels : Ini → Outside → AlarmManager → ℕ → ℤ → Result Started
start_channels get o m windows interval = do
  channels ← set_channels get 1 windows
  ok (
      started (record {
        manager = m;
        world = start_world get o;
        channels = channels;
        staff_report_interval = interval;
      }))

unfoldable pub boot : (Bytes → Result ℕ) → Ini → Outside → Result Started
unfolding contexts set_channels
boot stof get o = do
  interval ← stoi (interval_text get)
  m ← load_alarms_from_file (global_manager o) o.conf_file
  cooltime ← stoi (cooltime_text get)
  persist_time ← stof (persist_text get)
  windows ← stoi (window_count_text get)
  alarm_num ← stoi (alarm_num_text get)
  let m' = set_persist_time (set_cooltime m cooltime) persist_time
  let m'' = record m' { alarm_context = contexts get 1 (pos_part alarm_num) }
  if o.image_semaphore
      then (if o.inference_semaphore
          then start_channels get o m'' (pos_part windows) interval
          else ok no_semaphore)
      else ok no_semaphore

-- What `routine` reads before its loop.
pub record RoutineSettings : Type 0 where
  pub data_gathering_point : Bytes
  pub id : Bytes
  pub password : Bytes
  pub ip : Bytes
  pub port : ℤ
  pub width : ℤ
  pub height : ℤ
  pub cam_description : ℤ

abbrev pub routine_settings : Ini → ℤ → ℤ → ℤ → ℤ → RoutineSettings
routine_settings get port width height cam_description = record {
  data_gathering_point =
      get (codes "Developer Option") (codes "data_gathering_point") (codes "./data");
  id = get (codes "CCTV Connection") (codes "id") (codes "admin");
  password = get (codes "CCTV Connection") (codes "password") (codes "q1w2e3r4");
  ip = get (codes "CCTV Connection") (codes "ip") (codes "192.168.1.100");
  port = port;
  width = width;
  height = height;
  cam_description = cam_description;
}

-- With whether the network that `readNet` gives is empty, or its throw: `none` where `routine` returns before
-- its loop.
unfoldable pub start_routine : Ini → Result Bool → CameraChannel → Result (Option RoutineSettings)
start_routine get net c = do
  port ← stoi (port_text get)
  width ← stoi (width_text get)
  height ← stoi (height_text get)
  cam_description ← stoi (camera_text get (codes "Camera Description") c.camera_channel_id)
  net_is_empty ← net
  ok (if net_is_empty then none else some (routine_settings get port width height cam_description))

-- A turn of the loop of the channel at an index, and any number of turns of the channels' loops.
unfoldable pub channel_turn : ℕ → Program → ℕ × Frame × Image → Result Program
channel_turn frames_to_check p (i, f, image) = elim (get_elem? p.channels i) [
  | none ↦ ok p
  | some c ↦
      (turn frames_to_check c p.manager p.world f image >>= λ (c', m', w').
      ok (record p { manager = m'; world = w'; channels = set_elem p.channels i c' }))
]

unfoldable pub run_turns : ℕ → Program → List (ℕ × Frame × Image) → Result Program
run_turns frames_to_check p [] = ok p
run_turns frames_to_check p (t ∷ turns) =
    channel_turn frames_to_check p t >>= λ p'. run_turns frames_to_check p' turns
