-- ===== src/Threads.antt =====
-- src/main.cpp: the loops of the staff report's thread and of the thread that saves the log, with their
-- readings of `g_running`, the signal handler, and the joins at the end of `main`.
-- A thread's readings of `g_running` are counted: `running t` is what its reading number `t` sees.
-- A wait of one second takes no reading. The threads that are joined have ended.
pub mod Reports
pub mod Saves
pub mod Ends
use multi_cctv_object_detect.Prelude.{
  ℕ, zero, suc, ℤ, pos, pos_part, Bool, true, false, List, [], ◌∷◌, map, Option, none, some, Bytes,
  utf8, if◌then◌else◌, Result, ok, err, system_error, ◌>>=◌,
}
use multi_cctv_object_detect.Log.{Log, push, save, info}
use multi_cctv_object_detect.Mqtt.{Message}
use multi_cctv_object_detect.AlarmManager.{World}
use multi_cctv_object_detect.Channel.{CameraChannel, staff_message}
use multi_cctv_object_detect.Boot.{Program}

-- What a round of the report reads: the broker's state, the time, and the channels with their counts.
pub record StaffView : Type 0 where
  pub world : World
  pub is_connected : Bool
  pub timestamp : Bytes
  pub channels : List CameraChannel

abbrev pub message_of : StaffView → Option Message
message_of v = staff_message v.world v.is_connected v.timestamp v.channels

-- The loop of the seconds, with `n` of them left: the number of the next reading.
unfoldable pub wait_seconds : (ℕ → Bool) → ℕ → ℕ → ℕ
wait_seconds running zero t = t
wait_seconds running (suc n) t =
    let rest = wait_seconds running n (suc t) in if running t then rest else suc t

-- `staff_report_routine` from reading `t` on: the readings made when it ends, and what `publish` did
-- with the reports; `none` where the rounds do not suffice.
unfoldable pub staff_report_routine :
    (ℕ → Bool) → (ℕ → StaffView) → ℤ → ℕ → ℕ → Option (ℕ × List (Option Message))
unfolding wait_seconds
staff_report_routine running seen interval zero t = none
staff_report_routine running seen interval (suc rounds) t =
    let now = wait_seconds running (pos_part interval) (suc t) in
    let rest = staff_report_routine running seen interval rounds (suc now) in
    if running t
    then (if running now
        then elim rest [
          | none ↦ none
          | some (end, sent) ↦ some (end, message_of (seen (suc now)) ∷ sent)
        ]
        else some (suc now, []))
    else some (suc t, [])

-- What stands in the file after `save`, where it opens.
abbrev pub after_save : Log → Bool → Option Bytes → Option Bytes
after_save l opens file = elim (save l opens) [ none ↦ file | some text ↦ some text ]

-- `log_worker` from reading `t` on, with the log that each round sees and whether the file opens then:
-- the readings made when it ends, and the file. Its output to the console is left out.
unfoldable pub log_worker :
    (ℕ → Bool) → (ℕ → Log) → (ℕ → Bool) → Option Bytes → ℕ → ℕ → Option (ℕ × Option Bytes)
log_worker running seen opens file zero t = none
log_worker running seen opens file (suc rounds) t =
    let rest = log_worker running seen opens (after_save (seen t) (opens t) file) rounds (suc t) in
    if running t then rest else some (suc t, file)

-- `std::thread` as whether it is joinable.
pub data Thread : Type 0 where
  joinable joined : Thread

-- `join` throws on a thread that is not joinable.
abbrev pub join : Thread → Result Thread
join joinable = ok joined
join joined = err system_error

-- What the end of `main` uses, with `g_running`.
pub record Closing : Type 0 where
  pub g_running : Bool
  pub routine_threads : List Thread
  pub log_thread : Thread
  pub staff_thread : Thread
  pub log : Log
  pub semaphores_open : Bool

abbrev pub start_threads : Program → Closing
start_threads p = record {
  g_running = true;
  routine_threads = map (λ c. joinable) p.channels;
  log_thread = joinable;
  staff_thread = joinable;
  log = p.world.log;
  semaphores_open = true;
}

unfoldable pub signal_handler : Closing → Bytes → Closing
signal_handler s log_time = record s {
  log =
      push (push s.log log_time info (utf8 "종료 신호 수신...") (pos 0)) log_time info
        (utf8 "이미 실행된 thread의 종료까지 대기...") (pos 0);
  g_running = false;
}

unfoldable pub join_all : List Thread → Result (List Thread)
join_all [] = ok []
join_all (t ∷ threads) = do t' ← join t; threads' ← join_all threads; ok (t' ∷ threads')

abbrev pub join_workers : Closing → Result Closing
join_workers s = do
  routine_threads ← join_all s.routine_threads
  log_thread ← join s.log_thread
  staff_thread ← join s.staff_thread
  ok (record s {
    routine_threads = routine_threads;
    log_thread = log_thread;
    staff_thread = staff_thread;
  })

abbrev close_semaphores : Closing → Bytes → Closing
close_semaphores s log_time = record s {
  log =
      push (push s.log log_time info (utf8 "모든 thread 종료 완료. semaphore unlink 시작") (pos 0)) log_time
        info (utf8 "semaphore unlink 종료. 프로그램 종료.") (pos 0);
  semaphores_open = false;
}

-- What follows the start of the threads in `main`.
unfoldable pub shut_down : Closing → Bytes → Result Closing
unfolding join_all
shut_down s log_time = do
  s' ← join_workers s
  staff_thread ← join s'.staff_thread
  ok (close_semaphores (record s' { staff_thread = staff_thread }) log_time)
