-- ===== src/Channel/Semaphores/Sections.antt =====
-- src/main.cpp: how many threads are between a `sem_wait` and its `sem_post`.
use multi_cctv_object_detect.Prelude.{
  ◌<◌, sym, ap, ◌∙◌, length, length-set_elem, ltb, Bool-cases, ℕ, zero, suc, ◌+◌, Bool, List, [],
  ◌∷◌, ◌≡◌, refl, some, arith, get_elem?, set_elem, replicate, Option-cases, some-injective, inl,
  inr,
}
use multi_cctv_object_detect.Channel.Semaphores.{
  Place, at_loop, wants_image, in_image, has_frame, wants_inference, in_inference, at_alarms, ended,
  Semaphores, Loops, advance, sem_value, start_loops, take_step, run_steps, stop_loops,
}

-- The sum of a weight over the threads.
abbrev pub total : (Place → ℕ) → List Place → ℕ
total w [] = 0
total w (pc ∷ threads) = w pc + total w threads

pub total-set_elem :
    (w : Place → ℕ) (threads : List Place) (i : ℕ) (pc pc' : Place)
    → get_elem? threads i ≡ some pc
    → total w (set_elem threads i pc') + w pc ≡ total w threads + w pc'
total-set_elem w [] i pc pc' e = absurd (cc)
total-set_elem w (x ∷ threads) zero pc pc' e = ground arith
total-set_elem w (x ∷ threads) (suc i) pc pc' e = omega (arith, total-set_elem w threads i pc pc' e)

abbrev pub in_image_section : Place → ℕ
in_image_section in_image = 1
in_image_section _ = 0

abbrev pub in_inference_section : Place → ℕ
in_inference_section in_inference = 1
in_inference_section _ = 0

-- What a step takes from a semaphore is what the thread holds then.
advance_held :
    (running usable : Bool) (s s' : Semaphores) (pc pc' : Place)
    → advance running usable s pc ≡ some (s', pc')
    → (s'.image + in_image_section pc' ≡ s.image + in_image_section pc)
      × (s'.inference + in_inference_section pc' ≡ s.inference + in_inference_section pc)
unfolding advance
advance_held running usable s s' at_loop pc' e = ground arith
advance_held running usable s s' wants_image pc' e = ground arith
advance_held running usable s s' in_image pc' e = ground arith
advance_held running usable s s' has_frame pc' e = ground arith
advance_held running usable s s' wants_inference pc' e = ground arith
advance_held running usable s s' in_inference pc' e = ground arith
advance_held running usable s s' at_alarms pc' e = ground arith
advance_held running usable s s' ended pc' e = absurd (cc)

-- A semaphore and the threads behind it make up its first value.
pub record IsShared (l : Loops) : Type 0 where
  pub image : l.semaphores.image + total in_image_section l.threads ≡ sem_value
  pub inference : l.semaphores.inference + total in_inference_section l.threads ≡ sem_value

-- A step that was made, taken apart.
pub record Made (l : Loops) (i : ℕ) (usable : Bool) (l' : Loops) : Type 0 where
  pub pc : Place
  pub pc' : Place
  pub semaphores' : Semaphores
  pub found : get_elem? l.threads i ≡ some pc
  pub advanced : advance l.running usable l.semaphores pc ≡ some (semaphores', pc')
  pub after : l' ≡ record l { semaphores = semaphores'; threads = set_elem l.threads i pc' }

pub take_step-Made :
    (l l' : Loops) (i : ℕ) (usable : Bool) → take_step l (i, usable) ≡ some l' → Made l i usable l'
unfolding take_step
take_step-Made l l' i usable e = elim (Option-cases (get_elem? l.threads i)) [
  | inl nobody ↦ absurd (ground arith)
  | inr (pc, found) ↦ elim (Option-cases (advance l.running usable l.semaphores pc)) [
    | inl waits ↦ absurd (ground arith)
    | inr ((s', pc'), advanced) ↦ record {
      pc = pc;
      pc' = pc';
      semaphores' = s';
      found = found;
      advanced = advanced;
      after = ground arith;
    }
  ]
]

take_step-IsShared :
    (l l' : Loops) (i : ℕ) (usable : Bool)
    → take_step l (i, usable) ≡ some l'
    → IsShared l
    → IsShared l'
take_step-IsShared l l' i usable e shared =
    let made = take_step-Made l l' i usable e in
    let (image, inference) =
      advance_held l.running usable l.semaphores made.semaphores' made.pc made.pc' made.advanced in
    rw made.after (record {
      image = omega (
        arith,
        image,
        shared.image,
        total-set_elem in_image_section l.threads i made.pc made.pc' made.found,
      );
      inference = omega (
        arith,
        inference,
        shared.inference,
        total-set_elem in_inference_section l.threads i made.pc made.pc' made.found,
      );
    })

run_steps-IsShared :
    (l l' : Loops) (steps : List (ℕ × Bool))
    → run_steps l steps ≡ some l'
    → IsShared l
    → IsShared l'
unfolding run_steps
run_steps-IsShared l l' [] e shared = rw (← some-injective l l' e) shared
run_steps-IsShared l l' ((i, usable) ∷ steps) e shared =
    elim (Option-cases (take_step l (i, usable))) [
      | inl waits ↦ absurd (ground arith)
      | inr (l₁, made) ↦
          run_steps-IsShared l₁ l' steps (ground arith)
            (take_step-IsShared l l₁ i usable made shared)
    ]

total-replicate : (w : Place → ℕ) (n : ℕ) → w at_loop ≡ 0 → total w (replicate n at_loop) ≡ 0
total-replicate w zero h = refl
total-replicate w (suc n) h = omega (arith, h, total-replicate w n h)

start_loops-IsShared : (channels : ℕ) → IsShared (start_loops channels)
start_loops-IsShared channels = record {
  image = omega (arith, total-replicate in_image_section channels refl);
  inference = omega (arith, total-replicate in_inference_section channels refl);
}

-- After any steps of the threads of any number of channels, and any further steps after a signal, each
-- semaphore's value and the threads between its `sem_wait` and its `sem_post` make up six: never more
-- than six threads ask the cameras for a picture, never more than six run the network, and no place is
-- lost.
pub run_steps-Shared :
    (channels : ℕ) (steps later : List (ℕ × Bool)) (l l' : Loops)
    → run_steps (start_loops channels) steps ≡ some l
    → run_steps (stop_loops l) later ≡ some l'
    → IsShared l × IsShared l'
run_steps-Shared channels steps later l l' e e' =
    let shared =
      run_steps-IsShared (start_loops channels) l steps e (start_loops-IsShared channels) in
    (
      shared,
      run_steps-IsShared (stop_loops l) l' later e'
          (record { image = shared.image; inference = shared.inference }),
    )

-- A thread with a positive weight, where there is weight.
pub holder :
    (w : Place → ℕ) (threads : List Place)
    → 0 < total w threads
    → (i : ℕ) × (pc : Place) × (get_elem? threads i ≡ some pc) × (0 < w pc)
holder w [] some_weight = absurd (omega (arith, some_weight))
holder w (pc ∷ threads) some_weight = elim (Bool-cases (ltb 0 (w pc))) [
  | inl here ↦ (0, pc, refl, ground arith)
  | inr later ↦ let (i, pc', found, h) = holder w threads (ground arith) in (suc i, pc', found, h)
]

take_step-length :
    (l l' : Loops) (i : ℕ) (usable : Bool)
    → take_step l (i, usable) ≡ some l'
    → length l'.threads ≡ length l.threads
take_step-length l l' i usable e =
    let made = take_step-Made l l' i usable e in
    ap (λ (x : Loops). length x.threads) made.after ∙ length-set_elem l.threads i made.pc'

pub run_steps-length :
    (l l' : Loops) (steps : List (ℕ × Bool))
    → run_steps l steps ≡ some l'
    → length l'.threads ≡ length l.threads
unfolding run_steps
run_steps-length l l' [] e = ap (λ (x : Loops). length x.threads) (sym (some-injective l l' e))
run_steps-length l l' ((i, usable) ∷ steps) e = elim (Option-cases (take_step l (i, usable))) [
  | inl waits ↦ absurd (ground arith)
  | inr (l₁, made) ↦
      run_steps-length l₁ l' steps (ground arith) ∙ take_step-length l l₁ i usable made
]
