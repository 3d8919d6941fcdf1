-- ===== src/ThreadSafe/Fifo.antt =====
-- include/thread_safe/thread_safe_queue.h: sequences of calls on the queue.
use multi_cctv_object_detect.Prelude.{
  ℕ, zero, suc, ℤ, pos, negsuc, ◌≤◌, ◌<◌, Bool, true, List, [], ◌∷◌, ◌++◌, append_assoc, append-nil,
  ◌≡◌, inl, inr, refl, ap, ◌∙◌, Option, none, some, arith, length, length-append, ltb→lt, ◌&&◌,
  if◌then◌else◌, Bool-cases,
}
use multi_cctv_object_detect.ThreadSafe.{
  ThreadSafeQueue, is_bound, room, default_queue, moved_queue, new_queue, push_queue, pop_queue,
}

-- A call on the queue, by any thread.
pub data Call {ℓ} (A : Type ℓ) : Type ℓ where
  pushing : A → Call A
  popping : Call A

-- What a sequence of calls does: the items that the queue took, those that left it, and the queue.
pub record Trace {ℓ} (A : Type ℓ) : Type ℓ where
  pub taken : List A
  pub left : List A
  pub queue : ThreadSafeQueue A

-- The items that left, then those in the queue, are those taken; and the bound is kept.
pub record InOrder {ℓ} {A : Type ℓ} (n : ℕ) (t : Trace A) : Type ℓ where
  pub order : t.left ++ t.queue.queue_ ≡ t.taken
  pub bound : t.queue.queue_max_size ≡ pos n
  pub small : length t.queue.queue_ ≤ n

room-lt : (n size : ℕ) → is_bound (pos n) && room (pos n) size ≡ true → size < n
room-lt zero size h = absurd (cc)
room-lt (suc n) size h = ltb→lt size (suc n) h

module _ {ℓ} {A : Type ℓ} where
  abbrev pub accepts : ThreadSafeQueue A → Bool
  accepts q = is_bound q.queue_max_size && room q.queue_max_size (length q.queue_)

  abbrev leaving : Option A → List A
  leaving none = []
  leaving (some item) = item ∷ []

  abbrev pub step : Trace A → Call A → Trace A
  step t (pushing item) = record {
    taken = if accepts t.queue then t.taken ++ item ∷ [] else t.taken;
    left = t.left;
    queue = push_queue t.queue item;
  }
  step t popping = record {
    taken = t.taken;
    left = t.left ++ leaving (pop_queue t.queue).0;
    queue = (pop_queue t.queue).1;
  }

  abbrev pub run_calls : Trace A → List (Call A) → Trace A
  run_calls t [] = t
  run_calls t (c ∷ calls) = run_calls (step t c) calls

  abbrev pub begin : ℕ → Trace A
  begin n = record { taken = []; left = []; queue = new_queue (pos n) }

  has_room :
      (n : ℕ) (q : ThreadSafeQueue A)
      → q.queue_max_size ≡ pos n
      → accepts q ≡ true
      → length q.queue_ < n
  has_room n q e taking = room-lt n (length q.queue_) (rw e at taking)

  popped-InOrder :
      (n : ℕ) (taken left items : List A) (max_size : ℤ)
      → left ++ items ≡ taken
      → max_size ≡ pos n
      → length items ≤ n
      → InOrder n (
          step
            (record {
              taken = taken;
              left = left;
              queue = record { queue_ = items; queue_max_size = max_size };
            })
            popping)
  unfolding pop_queue
  popped-InOrder n taken left [] max_size o b s = record {
    order = rw append-nil o;
    bound = b;
    small = s;
  }
  popped-InOrder n taken left (item ∷ items) max_size o b s = record {
    order = append_assoc left (item ∷ []) items ∙ o;
    bound = b;
    small = omega (arith, s);
  }

  step-InOrder : (n : ℕ) (t : Trace A) (c : Call A) → InOrder n t → InOrder n (step t c)
  unfolding push_queue
  step-InOrder n t (pushing item) h = elim (Bool-cases (accepts t.queue)) [
    | inl taking ↦ record {
      order =
          rw (taking, push_queue, ← append_assoc t.left t.queue.queue_ (item ∷ []))
            (ap (λ (xs : List A). xs ++ item ∷ []) h.order);
      bound = rw (push_queue, taking) h.bound;
      small =
          rw (push_queue, taking)
            (omega
              (arith, length-append t.queue.queue_ (item ∷ []), has_room n t.queue h.bound taking));
    }
    | inr full ↦ record {
      order = rw (full, push_queue) h.order;
      bound = rw (push_queue, full) h.bound;
      small = rw (push_queue, full) h.small;
    }
  ]
  step-InOrder n t popping h =
      popped-InOrder n t.taken t.left t.queue.queue_ t.queue.queue_max_size h.order h.bound h.small

  run_calls-InOrder :
      (n : ℕ) (t : Trace A) (calls : List (Call A)) → InOrder n t → InOrder n (run_calls t calls)
  run_calls-InOrder n t [] h = h
  run_calls-InOrder n t (c ∷ calls) h = run_calls-InOrder n (step t c) calls (step-InOrder n t c h)

-- Over any sequence of pushes and pops by any threads, from an empty queue with bound `n`: the items
-- that left and then those still in the queue are, in order, the items that it took; and the queue
-- never holds more than `n`.
pub queue-InOrder {ℓ} :
    {A : Type ℓ} (n : ℕ) (calls : List (Call A)) → InOrder n (run_calls (begin n) calls)
queue-InOrder n calls =
    run_calls-InOrder n (begin n) calls (record { order = refl; bound = refl; small = omega arith })

-- A queue made without a bound takes nothing: whatever the calls, nothing leaves it.
default_queue-drops {ℓ} :
    {A : Type ℓ} (calls : List (Call A))
    → (run_calls (record { taken = []; left = []; queue = default_queue }) calls).left ≡ []
unfolding push_queue pop_queue
default_queue-drops [] = refl
default_queue-drops (pushing item ∷ calls) = default_queue-drops calls
default_queue-drops (popping ∷ calls) = default_queue-drops calls

-- A queue with no bound, and what has left it so far.
abbrev no_bound {ℓ} : {A : Type ℓ} → List A → List A → List A → Trace A
no_bound taken left items = record {
  taken = taken;
  left = left;
  queue = record { queue_ = items; queue_max_size = negsuc 0 };
}

no_bound-drops {ℓ} :
    {A : Type ℓ} (taken left items : List A) (calls : List (Call A))
    → (run_calls (no_bound taken left items) calls).left
        ++ (run_calls (no_bound taken left items) calls).queue.queue_
      ≡ left ++ items
unfolding push_queue pop_queue
no_bound-drops taken left items [] = refl
no_bound-drops taken left items (pushing item ∷ calls) = no_bound-drops taken left items calls
no_bound-drops taken left [] (popping ∷ calls) =
    no_bound-drops taken (left ++ []) [] calls ∙ append_assoc left [] []
no_bound-drops taken left (x ∷ items) (popping ∷ calls) =
    no_bound-drops taken (left ++ x ∷ []) items calls ∙ append_assoc left (x ∷ []) items

-- A queue that was moved takes nothing more, whatever its bound was before: after any calls, what has
-- left it and what it holds are, in order, the items that it held when it was moved. A queue made by the
-- default constructor is one that never held any.
pub moved_queue-drops {ℓ} :
    {A : Type ℓ} (other : ThreadSafeQueue A) (calls : List (Call A))
    → (let t = run_calls (record { taken = []; left = []; queue = moved_queue other }) calls in
        t.left ++ t.queue.queue_ ≡ other.queue_)
      × (moved_queue (default_queue {A = A}) ≡ default_queue)
moved_queue-drops other calls = (no_bound-drops [] [] other.queue_ calls, refl)
