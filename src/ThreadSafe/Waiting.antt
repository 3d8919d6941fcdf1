-- ===== src/ThreadSafe/Waiting.antt =====
-- include/thread_safe/thread_safe_queue.h and thread_safe_stack.h: `wait_and_pop` with its condition
-- variable, for any number of threads. A thread is asleep in `wait`, or woken and about to take the
-- mutex; `notify_one` wakes one that is asleep, if any, and a thread may wake up for no reason.
use multi_cctv_object_detect.Prelude.{
  ℕ, zero, suc, ◌≤◌, Bool, false, List, [], ◌∷◌, ◌≡◌, ◌⊎◌, inl, inr, refl, sym, ap, subst, ◌∙◌,
  replicate, Option, none, some, arith, Bool-cases, Option-cases, if◌then◌else◌,
}

-- What the waiting uses of a container, and what it relies on: `push` adds at most one item, and none
-- where it does not notify; `pop` finds nothing in an empty container only, and else takes one item.
pub record Container (A C : Type 0) : Type 0 where
  pub size : C → ℕ
  pub push : C → A → C
  pub notifies : C → A → Bool
  pub pop : C → Option A × C
  pub push_notified : (c : C) (a : A) → size (push c a) ≤ suc (size c)
  pub push_quiet : (c : C) (a : A) → notifies c a ≡ false → size (push c a) ≡ size c
  pub pop_none : (c : C) → (pop c).0 ≡ none → size c ≡ 0
  pub pop_some : (c : C) (a : A) → (pop c).0 ≡ some a → size c ≡ suc (size (pop c).1)

pub record Waiters (C : Type 0) : Type 0 where
  pub container : C
  pub asleep : ℕ
  pub woken : ℕ

-- `cond_.notify_one()`
abbrev notify_one : {C : Type 0} → Waiters C → Waiters C
notify_one w = elim w.asleep [ zero ↦ w | suc n ↦ record w { asleep = n; woken = suc w.woken } ]

-- What a thread does: the calls of the two other methods, the first test of `wait_and_pop`, the test of a
-- thread that was woken, and waking up for no reason.
pub data Action (A : Type 0) : Type 0 where
  push_item : A → Action A
  try_pop wait_and_pop test_again wake_up : Action A

module _ {A C : Type 0} (box : Container A C) where
  -- `cond_.wait`'s test, for a thread that sleeps, or sleeps again, where it fails.
  abbrev pub test : Waiters C → Waiters C
  test w = elim (box.pop w.container).0 [
    | none ↦ record w { asleep = suc w.asleep }
    | some a ↦ record w { container = (box.pop w.container).1 }
  ]

  abbrev act : Waiters C → Action A → Waiters C
  act w (push_item a) =
      let w' = record w { container = box.push w.container a } in
      if box.notifies w.container a then notify_one w' else w'
  act w try_pop = elim (box.pop w.container).0 [
    | none ↦ w
    | some a ↦ record w { container = (box.pop w.container).1 }
  ]
  act w wait_and_pop = test w
  act w test_again = elim w.woken [ zero ↦ w | suc n ↦ test (record w { woken = n }) ]
  act w wake_up = elim w.asleep [ zero ↦ w | suc n ↦ record w { asleep = n; woken = suc w.woken } ]

  abbrev pub act_all : Waiters C → List (Action A) → Waiters C
  act_all w [] = w
  act_all w (a ∷ actions) = act_all (act w a) actions

  -- Where a thread sleeps, there is a woken one for each item.
  abbrev IsAwake : Waiters C → Type 0
  IsAwake w = (w.asleep ≡ 0) ⊎ (box.size w.container ≤ w.woken)

  notify_one-IsAwake :
      (c : C) (asleep woken : ℕ)
      → (asleep ≡ 0) ⊎ (box.size c ≤ suc woken)
      → IsAwake (notify_one (record { container = c; asleep = asleep; woken = woken }))
  notify_one-IsAwake c zero woken h = inl refl
  notify_one-IsAwake c (suc n) woken (inl e) = absurd (omega (arith, e))
  notify_one-IsAwake c (suc n) woken (inr le) = inr le

  test-none :
      (w : Waiters C) → (box.pop w.container).0 ≡ none → test w ≡ record w { asleep = suc w.asleep }
  test-none w e = rw (e, test)

  test-some :
      (w : Waiters C) {a : A}
      → (box.pop w.container).0 ≡ some a
      → test w ≡ record w { container = (box.pop w.container).1 }
  test-some w e = rw (e, test)

  test-IsAwake :
      (w : Waiters C) → (w.asleep ≡ 0) ⊎ (box.size w.container ≤ suc w.woken) → IsAwake (test w)
  test-IsAwake w h = elim (Option-cases (box.pop w.container).0) [
    | inl e ↦ subst IsAwake (sym (test-none w e)) (inr (omega (arith, box.pop_none w.container e)))
    | inr (a, e) ↦ subst IsAwake (sym (test-some w e)) (elim h [
      | inl nobody ↦ inl nobody
      | inr le ↦ inr (omega (arith, le, box.pop_some w.container a e))
    ])
  ]

  push_item-IsAwake : (w : Waiters C) (a : A) → IsAwake w → IsAwake (act w (push_item a))
  push_item-IsAwake w a h = elim (Bool-cases (box.notifies w.container a)) [
    | inl told ↦ rw told (
        notify_one-IsAwake (box.push w.container a) w.asleep w.woken (elim h [
          | inl nobody ↦ inl nobody
          | inr le ↦ inr (omega (arith, le, box.push_notified w.container a))
        ]))
    | inr quiet ↦ rw quiet (elim h [
      | inl nobody ↦ inl nobody
      | inr le ↦ inr (omega (arith, le, box.push_quiet w.container a quiet))
    ])
  ]

  try_pop-IsAwake : (w : Waiters C) → IsAwake w → IsAwake (act w try_pop)
  try_pop-IsAwake w h = elim (Option-cases (box.pop w.container).0) [
    | inl e ↦ rw (e, act) h
    | inr (a, e) ↦
        rw (e, act)
          (elim h [
            | inl nobody ↦ inl nobody
            | inr le ↦ inr (omega (arith, le, box.pop_some w.container a e))
          ])
  ]

  weaken : (w : Waiters C) → IsAwake w → (w.asleep ≡ 0) ⊎ (box.size w.container ≤ suc w.woken)
  weaken w (inl nobody) = inl nobody
  weaken w (inr le) = inr (omega (arith, le))

  test_again-IsAwake :
      (c : C) (asleep woken : ℕ)
      → IsAwake (record { container = c; asleep = asleep; woken = woken })
      → IsAwake (act (record { container = c; asleep = asleep; woken = woken }) test_again)
  test_again-IsAwake c asleep zero h = h
  test_again-IsAwake c asleep (suc n) h =
      test-IsAwake (record { container = c; asleep = asleep; woken = n }) h

  wake_up-IsAwake :
      (c : C) (asleep woken : ℕ)
      → IsAwake (record { container = c; asleep = asleep; woken = woken })
      → IsAwake (act (record { container = c; asleep = asleep; woken = woken }) wake_up)
  wake_up-IsAwake c zero woken h = h
  wake_up-IsAwake c (suc n) woken (inl e) = absurd (omega (arith, e))
  wake_up-IsAwake c (suc n) woken (inr le) = inr (omega (arith, le))

  act-IsAwake : (w : Waiters C) (a : Action A) → IsAwake w → IsAwake (act w a)
  act-IsAwake w (push_item a) h = push_item-IsAwake w a h
  act-IsAwake w try_pop h = try_pop-IsAwake w h
  act-IsAwake w wait_and_pop h = test-IsAwake w (weaken w h)
  act-IsAwake w test_again h = test_again-IsAwake w.container w.asleep w.woken h
  act-IsAwake w wake_up h = wake_up-IsAwake w.container w.asleep w.woken h

  act_all-IsAwake :
      (w : Waiters C) (actions : List (Action A)) → IsAwake w → IsAwake (act_all w actions)
  act_all-IsAwake w [] h = h
  act_all-IsAwake w (a ∷ actions) h = act_all-IsAwake (act w a) actions (act-IsAwake w a h)

  test-woken : (w : Waiters C) → (test w).woken ≡ w.woken
  test-woken w = elim (Option-cases (box.pop w.container).0) [
    | inl e ↦ ap (λ (v : Waiters C). v.woken) (test-none w e)
    | inr (a, e) ↦ ap (λ (v : Waiters C). v.woken) (test-some w e)
  ]

  -- The woken threads take the mutex, one after the other.
  abbrev settle : Waiters C → Waiters C
  settle w = act_all w (replicate w.woken test_again)

  -- A state where every item has a woken thread, or no thread sleeps; and once the woken threads have
  -- taken the mutex, no item is left or no thread sleeps.
  pub record Delivers (w : Waiters C) : Type 0 where
    awake : IsAwake w
    nobody_woken : (settle w).woken ≡ 0
    delivered : ((settle w).asleep ≡ 0) ⊎ (box.size (settle w).container ≡ 0)

  test_again-woken :
      (c : C) (asleep woken n : ℕ)
      → woken ≡ suc n
      → (act (record { container = c; asleep = asleep; woken = woken }) test_again).woken ≡ n
  test_again-woken c asleep zero n e = absurd (omega (arith, e))
  test_again-woken c asleep (suc m) n e =
      test-woken (record { container = c; asleep = asleep; woken = m }) ∙ omega (arith, e)

  settled : (n : ℕ) (w : Waiters C) → w.woken ≡ n → (act_all w (replicate n test_again)).woken ≡ 0
  settled zero w e = e
  settled (suc n) w e =
      settled n (act w test_again) (test_again-woken w.container w.asleep w.woken n e)

  pub act_all-Delivers :
      (w : Waiters C) (actions : List (Action A)) → IsAwake w → Delivers (act_all w actions)
  act_all-Delivers w actions h =
      let v = act_all w actions in
      let awake = act_all-IsAwake w actions h in
      let quiet = settled v.woken v refl in
      record {
        awake = awake;
        nobody_woken = quiet;
        delivered = elim (act_all-IsAwake v (replicate v.woken test_again) awake) [
          | inl nobody ↦ inl nobody
          | inr le ↦ inr (omega (arith, le, quiet))
        ];
      }
