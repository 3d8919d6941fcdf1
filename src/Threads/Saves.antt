-- ===== src/Threads/Saves.antt =====
-- src/main.cpp with include/config/logHandler.h: `log_worker` ends, and what a restart then reads.
use multi_cctv_object_detect.Prelude.{
  ℕ, zero, suc, ℤ, ◌+◌, ◌<◌, Bool, true, ◌≡◌, refl, ap, ◌∙◌, Option, some, Bytes, All, arith,
}
use multi_cctv_object_detect.Handler.Split.{Lacks}
use multi_cctv_object_detect.Log.{Log, new_log, limit, save, load}
use multi_cctv_object_detect.Log.Bounded.{last_n}
use multi_cctv_object_detect.Log.SaveLoad.{load-save}
use multi_cctv_object_detect.Threads.{after_save, log_worker}
use multi_cctv_object_detect.Threads.Reports.{StopsAt}

after_save-opens :
    (l : Log) (opens : Bool) (file : Option Bytes)
    → opens ≡ true
    → after_save l opens file ≡ save l true
unfolding save
after_save-opens l opens file e = rw e refl

module _ {running : ℕ → Bool} {last : ℕ} (h : StopsAt running (suc last)) (seen : ℕ → Log)
    (opens : ℕ → Bool) (open_last : opens last ≡ true) where
  log_worker-from :
      (left t rounds : ℕ) (file : Option Bytes)
      → last ≡ t + left
      → suc left < rounds
      → log_worker running seen opens file rounds t ≡ some (suc (suc last), save (seen last) true)
  unfolding log_worker
  log_worker-from left t zero file e enough = absurd (omega (arith, enough))
  log_worker-from left t (suc zero) file e enough = absurd (omega (arith, enough))
  log_worker-from zero t (suc (suc rounds)) file e enough =
      let here : t ≡ last = omega (arith, e) in
      let saved : after_save (seen t) (opens t) file ≡ save (seen last) true =
        after_save-opens (seen t) (opens t) file (ap opens here ∙ open_last)
        ∙ ap (λ n. save (seen n) true) here in
      rw (h.before t (omega (arith, e)), h.after (suc t) (omega (arith, e)), saved, here) refl
  log_worker-from (suc left) t (suc (suc rounds)) file e enough =
      rw (h.before t (omega (arith, e))) (
        log_worker-from left (suc t) (suc rounds) (after_save (seen t) (opens t) file)
          (omega (arith, e)) (omega (arith, enough)))

-- Let `g_running` be true for the readings 0 to `last` of the thread and false from then on, and let the
-- log's file open in the last round. Then `log_worker` ends, within more than `last + 1` rounds, at its
-- next reading, and the file has the log that its last round saw: where no line of it holds a line feed,
-- the program's next start loads the last of these lines, as many as its log may hold.
pub log_worker-saves :
    (running : ℕ → Bool) (last rounds : ℕ) (seen : ℕ → Log) (opens : ℕ → Bool) (file : Option Bytes)
    (fname : Bytes) (max : ℤ)
    → StopsAt running (suc last)
    → opens last ≡ true
    → suc last < rounds
    → All (Lacks 10) (seen last).last_lines
    → (file' : Option Bytes) × (log_worker running seen opens file rounds 0
        ≡ some (suc (suc last), file'))
      × ((load (new_log fname max) file').last_lines
          ≡ last_n (limit (new_log fname max)) (seen last).last_lines)
log_worker-saves running last rounds seen opens file fname max h open_last enough lines = (
  save (seen last) true,
  log_worker-from h seen opens open_last last 0 rounds file (omega arith) enough,
  load-save (seen last) fname max lines,
)
