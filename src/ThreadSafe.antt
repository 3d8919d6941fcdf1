-- ===== src/ThreadSafe.antt =====
-- include/thread_safe/thread_safe_queue.h and thread_safe_stack.h: the bounded containers that the
-- frames pass through. Each method holds the mutex from its first line to its last, so that a run of
-- several threads is a sequence of these calls; a `wait_and_pop` stands in it where its wait ends. The
-- wait itself is in ThreadSafe/Waiting.
pub mod Fifo
pub mod Newest
pub mod Waiting
pub mod Delivers
use multi_cctv_object_detect.Prelude.{
  ℕ, zero, suc, ℤ, pos, negsuc, Bool, true, false, List, [], ◌∷◌, ◌++◌, Option, none, some, length,
  ltb, leb, ◌&&◌, if◌then◌else◌,
}

-- `max_size > 0`
abbrev pub is_bound : ℤ → Bool
is_bound (pos (suc n)) = true
is_bound _ = false

-- `size() < max_size`, for a `max_size` that is not negative.
abbrev pub room : ℤ → ℕ → Bool
room (pos n) size = ltb size n
room (negsuc n) size = true

-- `std::list::pop_back`
abbrev pub pop_back {ℓ} : {A : Type ℓ} → List A → List A
pop_back [] = []
pop_back (x ∷ []) = []
pop_back (x ∷ y ∷ xs) = x ∷ pop_back (y ∷ xs)

-- `queue_` from the front, the oldest item first.
pub record ThreadSafeQueue {ℓ} (A : Type ℓ) : Type ℓ where
  pub queue_ : List A
  pub queue_max_size : ℤ

-- `data_container_` from the front, the newest item first.
pub record ThreadSafeStack {ℓ} (A : Type ℓ) : Type ℓ where
  pub data_container_ : List A
  pub stack_max_size : ℤ

module _ {ℓ} {A : Type ℓ} where
  -- `ThreadSafeQueue() = default` leaves `max_size` at -1.
  abbrev pub default_queue : ThreadSafeQueue A
  default_queue = record { queue_ = []; queue_max_size = negsuc 0 }

  abbrev pub new_queue : ℤ → ThreadSafeQueue A
  new_queue max_size = record { queue_ = []; queue_max_size = max_size }

  unfoldable pub push_queue : ThreadSafeQueue A → A → ThreadSafeQueue A
  push_queue q item =
      if is_bound q.queue_max_size && room q.queue_max_size (length q.queue_)
      then record q { queue_ = q.queue_ ++ item ∷ [] }
      else q

  -- `try_pop`, and `wait_and_pop` where it returns; `none` where `try_pop` returns false.
  unfoldable pub pop_queue : ThreadSafeQueue A → Option A × ThreadSafeQueue A
  pop_queue q = elim q.queue_ [
    | [] ↦ (none, q)
    | item ∷ rest ↦ (some item, record q { queue_ = rest })
  ]

  -- The move constructor takes the items only, so that `max_size` is -1. What it leaves is unspecified.
  abbrev pub moved_queue : ThreadSafeQueue A → ThreadSafeQueue A
  moved_queue other = record { queue_ = other.queue_; queue_max_size = negsuc 0 }

  abbrev default_stack : ThreadSafeStack A
  default_stack = record { data_container_ = []; stack_max_size = negsuc 0 }

  abbrev pub new_stack : ℤ → ThreadSafeStack A
  new_stack max_size = record { data_container_ = []; stack_max_size = max_size }

  unfoldable pub push_stack : ThreadSafeStack A → A → ThreadSafeStack A
  push_stack s item =
      let kept =
        if is_bound s.stack_max_size
        then (if room s.stack_max_size (length s.data_container_)
            then s.data_container_
            else pop_back s.data_container_)
        else s.data_container_ in
      record s { data_container_ = item ∷ kept }

  unfoldable pub pop_stack : ThreadSafeStack A → Option A × ThreadSafeStack A
  pop_stack s = elim s.data_container_ [
    | [] ↦ (none, s)
    | item ∷ rest ↦ (some item, record s { data_container_ = rest })
  ]

  abbrev moved_stack : ThreadSafeStack A → ThreadSafeStack A
  moved_stack other = record { data_container_ = other.data_container_; stack_max_size = negsuc 0 }
