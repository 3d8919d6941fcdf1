-- ===== src/Tests/Waiting.antt =====
-- Two threads that wait for items, and two items pushed.
use multi_cctv_object_detect.Prelude.{pos, ℕ, List, [], ◌∷◌}
use multi_cctv_object_detect.ThreadSafe.{new_queue, new_stack}
use multi_cctv_object_detect.ThreadSafe.Waiting.{
  Action, push_item, wait_and_pop, test_again, act_all, Delivers,
}
use multi_cctv_object_detect.ThreadSafe.Delivers.{
  queue_box, stack_box, no_waiters, wait_and_pop-Delivers,
}

abbrev actions : List (Action ℕ)
actions = wait_and_pop ∷ wait_and_pop ∷ push_item 7 ∷ push_item 8 ∷ test_again ∷ []

wait_and_pop-Delivers_example :
    Delivers queue_box (act_all queue_box (no_waiters (new_queue (pos 5))) actions)
    × Delivers stack_box (act_all stack_box (no_waiters (new_stack (pos 5))) actions)
wait_and_pop-Delivers_example = wait_and_pop-Delivers (pos 5) actions
