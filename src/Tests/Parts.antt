-- ===== src/Tests/Parts.antt =====
-- The log, the mutes, the containers, the saved files and the channels on small data.
use mathlib.Core.List.Permᴰ.{swap}
use multi_cctv_object_detect.Prelude.{none}
use multi_cctv_object_detect.Prelude.{
  ℕ, pos, true, false, List, [], ◌∷◌, ◌++◌, ◌≡◌, refl, Bytes, codes, arith,
}
use multi_cctv_object_detect.Log.{Log, new_log, alarm, push, load, save, line_prefix}
use multi_cctv_object_detect.Log.Bounded.{Shows, push-Shows, new_log-Shows}
use multi_cctv_object_detect.Log.SaveLoad.{load-save}
use multi_cctv_object_detect.Mqtt.{MqttManager, no_connection, connected, connect}
use multi_cctv_object_detect.Mqtt.Retry.{again, later_calls, connect-no_retry}
use multi_cctv_object_detect.ThreadSafe.{ThreadSafeQueue, default_queue, moved_queue}
use multi_cctv_object_detect.ThreadSafe.Fifo.{
  Call, pushing, popping, InOrder, run_calls, begin, queue-InOrder, moved_queue-drops,
}
use multi_cctv_object_detect.DataSave.{Entry, listed, regular_files, delete_oldest_file_threshold}
use multi_cctv_object_detect.DataSave.Oldest.{KeepsNewest, delete_oldest-KeepsNewest}
use multi_cctv_object_detect.Tests.Folder.{sort}
use multi_cctv_object_detect.Channel.{Image, no_frame, black_frame, detected}

abbrev small_log : Log
small_log = new_log (codes "app.log") (pos 1)

push-Shows_example :
    Shows
      (push small_log (codes "now") alarm (codes "fallen") (pos 1))
      ([] ++ (line_prefix (codes "now") alarm (pos 1) ++ codes "fallen") ∷ [])
push-Shows_example =
    push-Shows small_log (codes "now") alarm (codes "fallen") (pos 1) []
      (new_log-Shows (codes "app.log") (pos 1))

abbrev two_lines : Log
two_lines = record small_log { last_lines = codes "a" ∷ codes "b" ∷ [] }

load-save_example :
    (load (new_log (codes "app.log") (pos 1)) (save two_lines true)).last_lines ≡ codes "b" ∷ []
load-save_example = load-save two_lines (codes "app.log") (pos 1) ((refl, tt), ((refl, tt), tt))

abbrev calls : List (Call ℕ)
calls = pushing 4 ∷ pushing 5 ∷ pushing 6 ∷ popping ∷ pushing 7 ∷ []

queue-InOrder_example : InOrder 2 (run_calls (begin 2) calls)
queue-InOrder_example = queue-InOrder 2 calls

abbrev full_queue : ThreadSafeQueue ℕ
full_queue = record { queue_ = 2 ∷ 3 ∷ []; queue_max_size = pos 2 }

moved_queue-drops_example :
    ((run_calls (record { taken = []; left = []; queue = moved_queue full_queue }) calls).left
        ++ (run_calls
            (record { taken = []; left = []; queue = moved_queue full_queue })
            calls).queue.queue_
      ≡ 2 ∷ 3 ∷ [])
    × (moved_queue (default_queue {A = ℕ}) ≡ default_queue)
moved_queue-drops_example = moved_queue-drops full_queue calls

abbrev saved : Bytes → ℕ → Entry
saved path time = record {
  path = path;
  extension = codes ".jpg";
  is_regular_file = true;
  last_write_time = time;
}

abbrev entries : List Entry
entries = saved (codes "b") 9 ∷ saved (codes "a") 4 ∷ []

delete_oldest-KeepsNewest_example :
    KeepsNewest
      (regular_files entries)
      1
      (delete_oldest_file_threshold sort (λ p. false) (listed entries) 1)
unfolding regular_files
delete_oldest-KeepsNewest_example =
    delete_oldest-KeepsNewest sort (λ p. false) entries 1 (swap refl refl)
      ((ground arith, tt), (tt, tt)) (λ p. refl)

abbrev images : List Image
images = no_frame ∷ detected 5 (pos 3 ∷ pos 10 ∷ []) ∷ black_frame ∷ []

abbrev unconnected : MqttManager
unconnected = record { address = []; client_id = []; user_id = []; password = []; client_ = none }

connect-no_retry_example :
    later_calls
      (connect no_connection unconnected (codes "tcp") (codes "a") [] [])
      (again connected ∷ [])
    ≡ connect no_connection unconnected (codes "tcp") (codes "a") [] []
connect-no_retry_example =
    connect-no_retry unconnected (codes "tcp") (codes "a") [] [] (again connected ∷ []) refl
