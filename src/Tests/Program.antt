-- ===== src/Tests/Program.antt =====
-- The start with the default settings and the test rule, the staff report's thread, and the end.
use multi_cctv_object_detect.Prelude.{Option}
use multi_cctv_object_detect.Prelude.{
  ℕ, pos, ◌≤◌, Bool, true, [], ◌∷◌, none, some, Bytes, codes, arith, refl, ◌≡◌, All, ltb, Result,
  ok, err, system_error, bytes_eq, if◌then◌else◌,
}
use multi_cctv_object_detect.Handler.Split.{unlines}
use multi_cctv_object_detect.AlarmFile.Render.{file_lines}
use multi_cctv_object_detect.Channel.{CameraChannel, new_channel}
use multi_cctv_object_detect.Mqtt.{connected}
use multi_cctv_object_detect.Boot.{Ini, Outside, Program}
use multi_cctv_object_detect.Boot.Runs.{Numbers}
use multi_cctv_object_detect.Threads.{
  StaffView, Closing, start_threads, signal_handler, join_workers, shut_down, staff_report_routine,
  log_worker,
}
use multi_cctv_object_detect.Threads.Reports.{StopsAt, reports_from, staff_report_routine-reports}
use multi_cctv_object_detect.Log.{Log, new_log, load}
use multi_cctv_object_detect.Threads.Saves.{log_worker-saves}
use multi_cctv_object_detect.Threads.Ends.{HasJoined, shut_down-throws}
use multi_cctv_object_detect.Tests.{rule, manager, world}

abbrev defaults : Ini
defaults section key default = default

-- The defaults, with the number 1 for the cameras' descriptions.
abbrev pub settings : Ini
settings section key default =
    if bytes_eq section (codes "Camera Description") then codes "1" else default

-- A `std::stof` that knows one text.
abbrev five : Bytes → Result ℕ
five text = ok 0x40A0_0000

abbrev numbers : Numbers
numbers = record {
  interval = pos 5;
  cooltime = pos 180;
  persist_time = 0x40A0_0000;
  windows = pos 12;
  alarm_num = pos 6;
}

abbrev outside : Outside
outside = record {
  id_file = some 41;
  conf_file = some (unlines (file_lines (rule ∷ [])));
  log_file = none;
  image_semaphore = true;
  inference_semaphore = true;
  broker = connected;
  log_time = codes "now";
}

abbrev unknown_channel : CameraChannel
unknown_channel = new_channel (pos 1) (pos 101) (codes "Unknown") (codes "Unknown")

abbrev running : ℕ → Bool
running t = ltb t 16

running-StopsAt : StopsAt running 16
running-StopsAt = record { before = λ t h. ground arith; after = λ t h. ground arith }

abbrev program : Program
program = record {
  manager = manager;
  world = world;
  channels = new_channel (pos 1) (pos 101) (codes "room") (codes "bed") ∷ [];
  staff_report_interval = pos 5;
}

abbrev seen : ℕ → StaffView
seen t = record {
  world = world;
  is_connected = true;
  timestamp = codes "now";
  channels = program.channels;
}

staff_report_routine-reports_example :
    (end : ℕ) × (staff_report_routine running seen (pos 5) 3 0
      ≡ some (end, reports_from seen 7 2 0))
    × (end ≤ 18)
staff_report_routine-reports_example =
    staff_report_routine-reports running seen (pos 5) 2 2 3 running-StopsAt (ground arith)
      (ground arith)

shut_down-throws_example :
    (s : Closing) × (join_workers (signal_handler (start_threads program) (codes "now")) ≡ ok s)
    × All HasJoined s.routine_threads
    × HasJoined s.log_thread
    × HasJoined s.staff_thread
    × (s.semaphores_open ≡ true)
    × (shut_down (signal_handler (start_threads program) (codes "now")) (codes "later")
        ≡ err system_error)
shut_down-throws_example = shut_down-throws program (codes "now") (codes "later")

abbrev seen_log : ℕ → Log
seen_log t = record world.log { last_lines = codes "a" ∷ codes "b" ∷ [] }

log_worker-saves_example :
    (file : Option Bytes) × (log_worker running seen_log (λ t. true) none 17 0 ≡ some (17, file))
    × ((load (new_log (codes "app.log") (pos 1)) file).last_lines ≡ codes "b" ∷ [])
log_worker-saves_example =
    log_worker-saves running 15 17 seen_log (λ t. true) none (codes "app.log") (pos 1)
      running-StopsAt refl (ground arith) ((refl, tt), ((refl, tt), tt))
