-- ===== src/Channel/Semaphores/Finish.antt =====
-- src/main.cpp: the threads of all channels end after a signal.
use multi_cctv_object_detect.Prelude.{
  ℕ, zero, suc, ◌+◌, ◌*◌, ◌≤◌, ◌<◌, Bool, true, false, List, [], ◌∷◌, ◌≡◌, ◌⊎◌, refl, sym, ap, ◌∙◌,
  some, some-injective, arith, get_elem?, set_elem, length, length-replicate, All, Option-cases,
  Option, none, ◌==◌, if◌then◌else◌, Bool-cases, ltb, inl, inr,
}
use multi_cctv_object_detect.Channel.Semaphores.{
  Place, at_loop, wants_image, in_image, has_frame, wants_inference, in_inference, at_alarms, ended,
  Semaphores, Loops, advance, start_loops, take_step, run_steps, stop_loops,
}
use multi_cctv_object_detect.Channel.Semaphores.Sections.{
  total, total-set_elem, in_image_section, in_inference_section, IsShared, take_step-Made,
  run_steps-Shared, holder, run_steps-length,
}

-- The steps that a thread still makes once `g_running` is false.
abbrev steps_left : Place → ℕ
steps_left at_loop = 1
steps_left wants_image = 4
steps_left in_image = 3
steps_left has_frame = 2
steps_left wants_inference = 4
steps_left in_inference = 3
steps_left at_alarms = 2
steps_left ended = 0

steps_left-le-4 : (pc : Place) → steps_left pc ≤ 4
steps_left-le-4 at_loop = omega arith
steps_left-le-4 wants_image = omega arith
steps_left-le-4 in_image = omega arith
steps_left-le-4 has_frame = omega arith
steps_left-le-4 wants_inference = omega arith
steps_left-le-4 in_inference = omega arith
steps_left-le-4 at_alarms = omega arith
steps_left-le-4 ended = omega arith

steps_left-le : (threads : List Place) → total steps_left threads ≤ 4 * length threads
steps_left-le [] = omega arith
steps_left-le (pc ∷ threads) = omega (arith, steps_left-le-4 pc, steps_left-le threads)

advance_stopped :
    (usable : Bool) (s s' : Semaphores) (pc pc' : Place)
    → advance false usable s pc ≡ some (s', pc')
    → suc (steps_left pc') ≡ steps_left pc
unfolding advance
advance_stopped usable s s' at_loop pc' e = ground arith
advance_stopped usable s s' wants_image pc' e = ground arith
advance_stopped usable s s' in_image pc' e = ground arith
advance_stopped usable s s' has_frame pc' e = ground arith
advance_stopped usable s s' wants_inference pc' e = ground arith
advance_stopped usable s s' in_inference pc' e = ground arith
advance_stopped usable s s' at_alarms pc' e = ground arith
advance_stopped usable s s' ended pc' e = absurd (cc)

step_stopped :
    (l l' : Loops) (i : ℕ) (usable : Bool)
    → l.running ≡ false
    → take_step l (i, usable) ≡ some l'
    → (l'.running ≡ false) × (suc (total steps_left l'.threads) ≡ total steps_left l.threads)
step_stopped l l' i usable stopped e =
    let made = take_step-Made l l' i usable e in
    let advanced : advance false usable l.semaphores made.pc ≡ some (made.semaphores', made.pc') =
      ap (λ b. advance b usable l.semaphores made.pc) (sym stopped) ∙ made.advanced in
    rw made.after (
      stopped,
      omega (
        arith,
        advance_stopped usable l.semaphores made.semaphores' made.pc made.pc' advanced,
        total-set_elem steps_left l.threads i made.pc made.pc' made.found,
      ),
    )

run_steps_stopped :
    (l l' : Loops) (steps : List (ℕ × Bool))
    → l.running ≡ false
    → run_steps l steps ≡ some l'
    → length steps + total steps_left l'.threads ≡ total steps_left l.threads
unfolding run_steps
run_steps_stopped l l' [] stopped e = rw (some-injective l l' e) (omega arith)
run_steps_stopped l l' ((i, usable) ∷ steps) stopped e =
    elim (Option-cases (take_step l (i, usable))) [
      | inl waits ↦ absurd (ground arith)
      | inr (l₁, made) ↦
          let (stopped₁, fewer) = step_stopped l l₁ i usable stopped made in
          omega (arith, fewer, run_steps_stopped l₁ l' steps stopped₁ (ground arith))
    ]

-- How many of the steps a thread makes.
abbrev pub steps_of : ℕ → List (ℕ × Bool) → ℕ
steps_of i [] = 0
steps_of i ((j, usable) ∷ steps) = let n = steps_of i steps in if j == i then suc n else n

abbrev left_at : Option Place → ℕ
left_at none = 0
left_at (some pc) = steps_left pc

left_at-set_elem :
    (threads : List Place) (j : ℕ) (pc pc' : Place) (i : ℕ)
    → get_elem? threads j ≡ some pc
    → suc (steps_left pc') ≡ steps_left pc
    → (if j == i then 1 else 0) + left_at (get_elem? (set_elem threads j pc') i)
      ≡ left_at (get_elem? threads i)
left_at-set_elem [] j pc pc' i found e = absurd (cc)
left_at-set_elem (p ∷ threads) zero pc pc' zero found e =
    let same : p ≡ pc = some-injective p pc found in omega (arith, e, ap steps_left same)
left_at-set_elem (p ∷ threads) zero pc pc' (suc i) found e = ground arith
left_at-set_elem (p ∷ threads) (suc j) pc pc' zero found e = ground arith
left_at-set_elem (p ∷ threads) (suc j) pc pc' (suc i) found e =
    ground (arith, left_at-set_elem threads j pc pc' i found e)

steps_of-left_at :
    (l l' : Loops) (steps : List (ℕ × Bool)) (i : ℕ)
    → l.running ≡ false
    → run_steps l steps ≡ some l'
    → steps_of i steps + left_at (get_elem? l'.threads i) ≡ left_at (get_elem? l.threads i)
unfolding run_steps
steps_of-left_at l l' [] i stopped e = rw (some-injective l l' e) (omega arith)
steps_of-left_at l l' ((j, usable) ∷ steps) i stopped e =
    elim (Option-cases (take_step l (j, usable))) [
      | inl waits ↦ absurd (ground arith)
      | inr (l₁, step) ↦
          let made = take_step-Made l l₁ j usable step in
          let advanced : advance false usable l.semaphores made.pc
              ≡ some (made.semaphores', made.pc') =
            ap (λ b. advance b usable l.semaphores made.pc) (sym stopped) ∙ made.advanced in
          let fewer =
            advance_stopped usable l.semaphores made.semaphores' made.pc made.pc' advanced in
          let (stopped₁, _) = step_stopped l l₁ j usable stopped step in
          let rest = steps_of-left_at l₁ l' steps i stopped₁ (ground arith) in
          let here = left_at-set_elem l.threads j made.pc made.pc' i made.found fewer in
          let after : left_at (get_elem? l₁.threads i)
              ≡ left_at (get_elem? (set_elem l.threads j made.pc') i) =
            ap (λ (x : Loops). left_at (get_elem? x.threads i)) made.after in
          ground (arith, rest, here, after)
    ]

left_at-le-4 : (o : Option Place) → left_at o ≤ 4
left_at-le-4 none = omega arith
left_at-le-4 (some pc) = steps_left-le-4 pc

-- Some thread can make a step.
abbrev pub CanStep : Loops → Type 0
CanStep l = (t : ℕ × Bool) × (l' : Loops) × (take_step l t ≡ some l')

CanStep-advance :
    (l : Loops) (i : ℕ) (pc pc' : Place) (s' : Semaphores)
    → get_elem? l.threads i ≡ some pc
    → advance l.running true l.semaphores pc ≡ some (s', pc')
    → CanStep l
unfolding take_step
CanStep-advance l i pc pc' s' found advanced =
    ((i, true), record l { semaphores = s'; threads = set_elem l.threads i pc' }, ground arith)

-- Where a semaphore has no place left, a thread is between its `sem_wait` and its `sem_post`.
CanStep-in_image :
    (l : Loops) (i : ℕ) (pc : Place)
    → get_elem? l.threads i ≡ some pc
    → 0 < in_image_section pc
    → CanStep l
unfolding advance
CanStep-in_image l i in_image found h = CanStep-advance l i in_image has_frame _ found refl
CanStep-in_image l i _ found h = absurd (omega (arith, h))

CanStep-in_inference :
    (l : Loops) (i : ℕ) (pc : Place)
    → get_elem? l.threads i ≡ some pc
    → 0 < in_inference_section pc
    → CanStep l
unfolding advance
CanStep-in_inference l i in_inference found h =
    CanStep-advance l i in_inference at_alarms _ found refl
CanStep-in_inference l i _ found h = absurd (omega (arith, h))

ℕ-cases : (n : ℕ) → (n ≡ 0) ⊎ ((m : ℕ) × (n ≡ suc m))
ℕ-cases zero = inl refl
ℕ-cases (suc m) = inr (m, refl)

CanStep-left :
    (l : Loops) (i : ℕ) (pc : Place)
    → IsShared l
    → get_elem? l.threads i ≡ some pc
    → 0 < steps_left pc
    → CanStep l
unfolding advance
CanStep-left l i at_loop shared found h = CanStep-advance l i at_loop _ _ found refl
CanStep-left l i wants_image shared found h = elim (ℕ-cases l.semaphores.image) [
  | inl empty ↦
      let (j, pc, found', h') =
        holder in_image_section l.threads (omega (arith, shared.image, empty)) in
      CanStep-in_image l j pc found' h'
  | inr (n, places) ↦
      CanStep-advance l i wants_image in_image (record l.semaphores { image = n }) found
        (rw (advance, places) refl)
]
CanStep-left l i in_image shared found h = CanStep-advance l i in_image _ _ found refl
CanStep-left l i has_frame shared found h = CanStep-advance l i has_frame _ _ found refl
CanStep-left l i wants_inference shared found h = elim (ℕ-cases l.semaphores.inference) [
  | inl empty ↦
      let (j, pc, found', h') =
        holder in_inference_section l.threads (omega (arith, shared.inference, empty)) in
      CanStep-in_inference l j pc found' h'
  | inr (n, places) ↦
      CanStep-advance l i wants_inference in_inference (record l.semaphores { inference = n }) found
        (rw (advance, places) refl)
]
CanStep-left l i in_inference shared found h = CanStep-advance l i in_inference _ _ found refl
CanStep-left l i at_alarms shared found h = CanStep-advance l i at_alarms _ _ found refl
CanStep-left l i ended shared found h = absurd (omega (arith, h))

abbrev pub HasEnded : Place → Type 0
HasEnded pc = pc ≡ ended

All-HasEnded : (threads : List Place) → total steps_left threads ≡ 0 → All HasEnded threads
All-HasEnded [] e = tt
All-HasEnded (ended ∷ threads) e = (refl, All-HasEnded threads (omega (arith, e)))
All-HasEnded (_ ∷ threads) e = absurd (omega (arith, e))

-- After a signal, at any time, the threads of all channels end, whatever the order of their steps and
-- the frames that they get: each makes at most four steps more, and as long as one of them has not ended,
-- one of them can make a step.
pub stop_loops-Ends :
    (channels : ℕ) (steps later : List (ℕ × Bool)) (l l' : Loops)
    → run_steps (start_loops channels) steps ≡ some l
    → run_steps (stop_loops l) later ≡ some l'
    → ((i : ℕ) → steps_of i later ≤ 4)
      × (length later ≤ 4 * channels)
      × (All HasEnded l'.threads ⊎ CanStep l')
stop_loops-Ends channels steps later l l' e e' =
    let shared = run_steps-Shared channels steps later l l' e e' in
    let count = run_steps_stopped (stop_loops l) l' later refl e' in
    (
      λ i.
          let own = steps_of-left_at (stop_loops l) l' later i refl e' in
          let few = left_at-le-4 (get_elem? l.threads i) in omega (arith, own, few),
      omega (
        arith,
        count,
        steps_left-le l.threads,
        run_steps-length (start_loops channels) l steps e,
        length-replicate channels at_loop,
      ),
      elim (Bool-cases (ltb 0 (total steps_left l'.threads))) [
        | inl left ↦
            let (i, pc, found, h) = holder steps_left l'.threads (ground arith) in
            inr (CanStep-left l' i pc shared.1 found h)
        | inr done ↦ inl (All-HasEnded l'.threads (ground arith))
      ],
    )
