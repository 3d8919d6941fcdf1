-- ===== src/Channel/Semaphores.antt =====
-- src/main.cpp: the loops of `routine` in the threads of all channels, with the two semaphores that they
-- share and the flag that the signal handler clears.
-- A step of a thread goes from one reading of `g_running`, `sem_wait` or `sem_post` to the next. What a
-- step does besides is left out, and the calls between are taken to return.
pub mod Sections
pub mod Finish
use multi_cctv_object_detect.Prelude.{
  ℕ, zero, suc, Bool, true, false, ◌&&◌, List, [], ◌∷◌, Option, none, some, get_elem?, set_elem,
  replicate, if◌then◌else◌,
}

-- Where a channel's thread stands: at the loop's test, before `sem_wait(g_sem_image)`, before its
-- `sem_post`, at the tests of the frame, before `sem_wait(g_sem_inference)`, before its `sem_post`, in the
-- rest of the turn, and at the end of the thread.
pub data Place : Type 0 where
  at_loop wants_image in_image has_frame wants_inference in_inference at_alarms ended : Place

pub record Semaphores : Type 0 where
  pub image : ℕ
  pub inference : ℕ

-- A step from a place, where `usable` is whether the frame is neither empty nor black; `none` where the
-- thread waits or has ended.
unfoldable pub advance : Bool → Bool → Semaphores → Place → Option (Semaphores × Place)
advance running usable s at_loop = some (s, if running then wants_image else ended)
advance running usable s wants_image = elim s.image [
  | zero ↦ none
  | suc n ↦ some (record s { image = n }, in_image)
]
advance running usable s in_image = some (record s { image = suc s.image }, has_frame)
advance running usable s has_frame =
    some (s, if usable && running then wants_inference else at_loop)
advance running usable s wants_inference = elim s.inference [
  | zero ↦ none
  | suc n ↦ some (record s { inference = n }, in_inference)
]
advance running usable s in_inference = some (record s { inference = suc s.inference }, at_alarms)
advance running usable s at_alarms = some (s, at_loop)
advance running usable s ended = none

-- All channels' threads, with `g_running`.
pub record Loops : Type 0 where
  pub running : Bool
  pub semaphores : Semaphores
  pub threads : List Place

-- The value with which `sem_open` makes both semaphores.
abbrev pub sem_value : ℕ
sem_value = 6

abbrev pub start_loops : ℕ → Loops
start_loops channels = record {
  running = true;
  semaphores = record { image = sem_value; inference = sem_value };
  threads = replicate channels at_loop;
}

-- A step of the thread at an index; `none` where it waits or has ended, or there is no such thread.
unfoldable pub take_step : Loops → ℕ × Bool → Option Loops
unfolding advance
take_step l (i, usable) = elim (get_elem? l.threads i) [
  | none ↦ none
  | some pc ↦ elim (advance l.running usable l.semaphores pc) [
    | none ↦ none
    | some (s, pc') ↦ some (record l { semaphores = s; threads = set_elem l.threads i pc' })
  ]
]

unfoldable pub run_steps : Loops → List (ℕ × Bool) → Option Loops
unfolding take_step
run_steps l [] = some l
run_steps l (t ∷ steps) = elim (take_step l t) [ none ↦ none | some l' ↦ run_steps l' steps ]

-- `signal_handler`
abbrev pub stop_loops : Loops → Loops
stop_loops l = record l { running = false }
