-- ===== src/Tests/Loops.antt =====
-- Two channels' threads that take their turns in the two sections, and a signal between.
use multi_cctv_object_detect.Prelude.{
  ℕ, ◌*◌, ◌≤◌, Bool, true, false, List, [], ◌∷◌, ◌⊎◌, refl, All, length,
}
use multi_cctv_object_detect.Channel.Semaphores.{Loops, in_image, has_frame, ended, run_steps}
use multi_cctv_object_detect.Channel.Semaphores.Sections.{IsShared, run_steps-Shared}
use multi_cctv_object_detect.Channel.Semaphores.Finish.{
  steps_of, HasEnded, CanStep, stop_loops-Ends,
}

-- Both threads ask for a picture.
abbrev steps : List (ℕ × Bool)
steps = (0, true) ∷ (1, true) ∷ (0, true) ∷ (1, true) ∷ []

abbrev busy : Loops
busy = record {
  running = true;
  semaphores = record { image = 4; inference = 6 };
  threads = in_image ∷ in_image ∷ [];
}

-- After the signal one goes on to the end, and the other to the tests of its frame.
abbrev later : List (ℕ × Bool)
later = (0, true) ∷ (1, true) ∷ (0, true) ∷ (0, true) ∷ []

abbrev closing : Loops
closing = record {
  running = false;
  semaphores = record { image = 6; inference = 6 };
  threads = ended ∷ has_frame ∷ [];
}

run_steps-Shared_example : IsShared busy × IsShared closing
unfolding run_steps
run_steps-Shared_example = run_steps-Shared 2 steps later busy closing refl refl

stop_loops-Ends_example :
    ((i : ℕ) → steps_of i later ≤ 4)
    × (length later ≤ 4 * 2)
    × (All HasEnded closing.threads ⊎ CanStep closing)
unfolding run_steps
stop_loops-Ends_example = stop_loops-Ends 2 steps later busy closing refl refl
