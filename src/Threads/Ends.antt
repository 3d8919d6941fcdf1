-- ===== src/Threads/Ends.antt =====
-- src/main.cpp: what follows the start of the threads in `main`.
use multi_cctv_object_detect.Prelude.{
  true, List, [], ◌∷◌, map, ◌≡◌, refl, Bytes, All, ok, err, system_error,
}
use multi_cctv_object_detect.Channel.{CameraChannel}
use multi_cctv_object_detect.Boot.{Program}
use multi_cctv_object_detect.Threads.{
  Thread, joinable, joined, Closing, start_threads, signal_handler, join_all, join_workers,
  shut_down,
}

abbrev pub HasJoined : Thread → Type 0
HasJoined t = t ≡ joined

join_all-HasJoined :
    (channels : List CameraChannel)
    → (threads : List Thread) × (join_all (map (λ c. joinable) channels) ≡ ok threads)
      × All HasJoined threads
unfolding join_all
join_all-HasJoined [] = ([], refl, tt)
join_all-HasJoined (c ∷ channels) =
    let (threads, e, h) = join_all-HasJoined channels in (joined ∷ threads, rw e, (refl, h))

-- After a signal the threads of a started program can all be joined; but `main` joins the thread of
-- the staff report once more, which throws, so that it ends by an exception before the semaphores are
-- closed.
pub shut_down-throws :
    (p : Program) (signal_time end_time : Bytes)
    → (s : Closing) × (join_workers (signal_handler (start_threads p) signal_time) ≡ ok s)
      × All HasJoined s.routine_threads
      × HasJoined s.log_thread
      × HasJoined s.staff_thread
      × (s.semaphores_open ≡ true)
      × (shut_down (signal_handler (start_threads p) signal_time) end_time ≡ err system_error)
unfolding shut_down signal_handler
shut_down-throws p signal_time end_time =
    let (threads, e, h) = join_all-HasJoined p.channels in
    (
      record (signal_handler (start_threads p) signal_time) {
        routine_threads = threads;
        log_thread = joined;
        staff_thread = joined;
      },
      rw e,
      h,
      refl,
      refl,
      refl,
      rw e,
    )
