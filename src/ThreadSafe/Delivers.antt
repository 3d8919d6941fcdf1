-- ===== src/ThreadSafe/Delivers.antt =====
-- include/thread_safe/thread_safe_queue.h and thread_safe_stack.h: no item is left to threads that sleep.
use multi_cctv_object_detect.Prelude.{
  suc, ℤ, ◌≤◌, true, false, List, [], ◌∷◌, ◌≡◌, inl, inr, refl, none, some, arith, length,
  length-append, Bool-cases,
}
use multi_cctv_object_detect.ThreadSafe.{
  is_bound, room, ThreadSafeQueue, new_queue, push_queue, pop_queue, pop_back, ThreadSafeStack,
  new_stack, push_stack, pop_stack,
}
use multi_cctv_object_detect.ThreadSafe.Fifo.{accepts}
use multi_cctv_object_detect.ThreadSafe.Waiting.{
  Container, Waiters, Action, act_all, Delivers, act_all-Delivers,
}

-- A container that no thread waits for.
abbrev pub no_waiters : {C : Type 0} → C → Waiters C
no_waiters c = record { container = c; asleep = 0; woken = 0 }

module _ {A : Type 0} where
  pub push_queue-added :
      (q : ThreadSafeQueue A) (a : A) → length (push_queue q a).queue_ ≤ suc (length q.queue_)
  unfolding push_queue
  push_queue-added q a = elim (Bool-cases (accepts q)) [
    | inl free ↦ rw free (omega (arith, length-append q.queue_ (a ∷ [])))
    | inr full ↦ rw full (omega arith)
  ]

  pub push_queue-full :
      (q : ThreadSafeQueue A) (a : A)
      → accepts q ≡ false
      → length (push_queue q a).queue_ ≡ length q.queue_
  unfolding push_queue
  push_queue-full q a full = rw full refl

  pub pop_queue-none :
      (xs : List A) (n : ℤ)
      → (pop_queue (record { queue_ = xs; queue_max_size = n })).0 ≡ none
      → length xs ≡ 0
  unfolding pop_queue
  pop_queue-none [] n e = refl
  pop_queue-none (x ∷ xs) n e = absurd (cc)

  pub pop_queue-some :
      (xs : List A) (n : ℤ) {a : A}
      → (pop_queue (record { queue_ = xs; queue_max_size = n })).0 ≡ some a
      → length xs ≡ suc (length (pop_queue (record { queue_ = xs; queue_max_size = n })).1.queue_)
  unfolding pop_queue
  pop_queue-some [] n e = absurd (cc)
  pop_queue-some (x ∷ xs) n e = refl

  abbrev pub queue_box : Container A (ThreadSafeQueue A)
  queue_box = record {
    size = λ q. length q.queue_;
    push = push_queue;
    notifies = λ q a. accepts q;
    pop = pop_queue;
    push_notified = push_queue-added;
    push_quiet = push_queue-full;
    pop_none = λ q e. pop_queue-none q.queue_ q.queue_max_size e;
    pop_some = λ q a e. pop_queue-some q.queue_ q.queue_max_size e;
  }

  pop_back-length : (xs : List A) → length (pop_back xs) ≤ length xs
  pop_back-length [] = omega arith
  pop_back-length (x ∷ []) = omega arith
  pop_back-length (x ∷ y ∷ xs) = omega (arith, pop_back-length (y ∷ xs))

  pub push_stack-added :
      (s : ThreadSafeStack A) (a : A)
      → length (push_stack s a).data_container_ ≤ suc (length s.data_container_)
  unfolding push_stack
  push_stack-added s a = elim (Bool-cases (is_bound s.stack_max_size)) [
    | inr free ↦ rw free (omega arith)
    | inl bound ↦ elim (Bool-cases (room s.stack_max_size (length s.data_container_))) [
      | inl free ↦ rw (bound, free) (omega arith)
      | inr full ↦ rw (bound, full) (omega (arith, pop_back-length s.data_container_))
    ]
  ]

  pub pop_stack-none :
      (xs : List A) (n : ℤ)
      → (pop_stack (record { data_container_ = xs; stack_max_size = n })).0 ≡ none
      → length xs ≡ 0
  unfolding pop_stack
  pop_stack-none [] n e = refl
  pop_stack-none (x ∷ xs) n e = absurd (cc)

  pub pop_stack-some :
      (xs : List A) (n : ℤ) {a : A}
      → (pop_stack (record { data_container_ = xs; stack_max_size = n })).0 ≡ some a
      → length xs
        ≡ suc (
            length
              (pop_stack (record { data_container_ = xs; stack_max_size = n })).1.data_container_)
  unfolding pop_stack
  pop_stack-some [] n e = absurd (cc)
  pop_stack-some (x ∷ xs) n e = refl

  abbrev pub stack_box : Container A (ThreadSafeStack A)
  stack_box = record {
    size = λ s. length s.data_container_;
    push = push_stack;
    notifies = λ s a. true;
    pop = pop_stack;
    push_notified = push_stack-added;
    push_quiet = λ s a e. absurd (cc);
    pop_none = λ s e. pop_stack-none s.data_container_ s.stack_max_size e;
    pop_some = λ s a e. pop_stack-some s.data_container_ s.stack_max_size e;
  }

  -- After any calls of `push`, `try_pop` and `wait_and_pop` by any threads, on a queue or on a stack made
  -- with any size, no wakeup is lost: where a thread sleeps in `wait_and_pop`, there is a woken one for
  -- each item; and once the woken threads have taken the mutex, none of them is left, and either no item
  -- is left or no thread sleeps.
  pub wait_and_pop-Delivers :
      (max_size : ℤ) (actions : List (Action A))
      → Delivers queue_box (act_all queue_box (no_waiters (new_queue max_size)) actions)
        × Delivers stack_box (act_all stack_box (no_waiters (new_stack max_size)) actions)
  wait_and_pop-Delivers max_size actions = (
    act_all-Delivers queue_box (no_waiters (new_queue max_size)) actions (inl refl),
    act_all-Delivers stack_box (no_waiters (new_stack max_size)) actions (inl refl),
  )
