-- ===== src/AlarmManager/Interleaved.antt =====
-- src/alarm/alarmManager.cpp: calls of several channels' threads, with their steps in any order.
use multi_cctv_object_detect.Prelude.{
  ℕ, zero, suc, ℤ, ◌+◌, ◌-◌, ◌≤◌, true, false, List, [], ◌∷◌, ◌≡◌, inl, inr, refl, sym, ap, subst,
  ◌∙◌, arith, ok, ◌==◌, ==_iff, ◌==ℤ◌, Bool-cases, if◌then◌else◌,
}
use multi_cctv_object_detect.AlarmManager.{AlarmManager, World, Frame, process_channel_alarms}
use multi_cctv_object_detect.AlarmManager.Channels.{Untouched}
use multi_cctv_object_detect.AlarmManager.Alone.{IsDone, process-IsDone}
use multi_cctv_object_detect.AlarmManager.Steps.{
  Pc, before_staff, returned, Point, move, moves, Thread, System, point_at, set_thread, pick,
  pick_all, calls_of,
}
use multi_cctv_object_detect.AlarmManager.Entries.{same, chain}
use multi_cctv_object_detect.AlarmManager.Moves.{
  IsFor, Agree, move-Agree, move-Untouched, move-IsFor,
}

-- How often a thread is picked.
abbrev pub times : ℕ → List ℕ → ℕ
times i [] = 0
times i (j ∷ schedule) = let n = times i schedule in if j == i then suc n else n

-- The threads' calls are for different channels.
abbrev pub AreApart : (ℕ → ℤ) → Type 0
AreApart channels = (i j : ℕ) → (i == j) ≡ false → (channels i ==ℤ channels j) ≡ false

-- Each thread is at a point of its own channel's call.
abbrev AllFor : (ℕ → ℤ) → System → Type 0
AllFor channels s = (i : ℕ) → IsFor (channels i) (s.threads i).pc

set_thread-own :
    (threads : ℕ → Thread) (i : ℕ) (t : Thread) (j : ℕ)
    → (i == j) ≡ true
    → set_thread threads i t j ≡ t
set_thread-own threads i t j mine = rw mine refl

set_thread-other :
    (threads : ℕ → Thread) (i : ℕ) (t : Thread) (j : ℕ)
    → (i == j) ≡ false
    → set_thread threads i t j ≡ threads j
set_thread-other threads i t j other = rw other refl

abbrev thread_of : Point → Thread
thread_of p = record { pc = p.pc; loaded = p.loaded }

abbrev point : AlarmManager → World → Pc → ℕ → Point
point m w pc n = record { manager = m; world = w; pc = pc; loaded = n }

module _ (k : ℕ) (channels : ℕ → ℤ) (apart : AreApart channels) where
  pick-AllFor : (s : System) (i : ℕ) → AllFor channels s → AllFor channels (pick k s i)
  pick-AllFor s i h j = elim (Bool-cases (i == j)) [
    | inl mine ↦
        let p = move k (point_at s i) in
        let here : IsFor (channels j) p.pc =
          subst (λ c. IsFor c p.pc) (ap channels ((==_iff i j).0 mine))
            (move-IsFor k (channels i) s.manager s.world (s.threads i).pc (s.threads i).loaded
              (h i)) in
        subst (λ (t : Thread). IsFor (channels j) t.pc)
          (sym (set_thread-own s.threads i (thread_of p) j mine)) here
    | inr other ↦
        subst (λ (t : Thread). IsFor (channels j) t.pc)
          (sym (set_thread-other s.threads i (thread_of (move k (point_at s i))) j other)) (h j)
  ]

  -- A step of the thread itself, and of another, beside the thread alone.
  pick-own :
      (s : System) (i : ℕ) (p : Point)
      → AllFor channels s
      → Agree (channels i) p (point_at s i)
      → Agree (channels i) (move k p) (point_at (pick k s i) i)
  pick-own s i p h (e, u) =
      let q = move k (point_at s i) in
      let for_this : IsFor (channels i) p.pc = subst (IsFor (channels i)) (sym e) (h i) in
      let moved : Agree (channels i) (move k p) q =
        subst
          (λ pc.
            Agree (channels i) (move k p)
              (move k (point s.manager s.world pc (s.threads i).loaded)))
          e
          (move-Agree k (channels i) p.manager s.manager u p.world s.world p.pc p.loaded
            (s.threads i).loaded for_this) in
      subst (λ (t : Thread). Agree (channels i) (move k p) (point q.manager q.world t.pc t.loaded))
        (sym (set_thread-own s.threads i (thread_of q) i ((==_iff i i).1 refl))) moved

  pick-other :
      (s : System) (i j : ℕ) (p : Point)
      → AllFor channels s
      → (j == i) ≡ false
      → Agree (channels i) p (point_at s i)
      → Agree (channels i) p (point_at (pick k s j) i)
  pick-other s i j p h other (e, u) = (
    e
        ∙ ap (λ (t : Thread). t.pc)
            (sym (set_thread-other s.threads j (thread_of (move k (point_at s j))) i other)),
    chain u (
        move-Untouched k (channels j) (channels i) (apart j i other) s.manager s.world
          (s.threads j).pc (s.threads j).loaded (h j)),
  )

  pick_all-Agree :
      (s : System) (schedule : List ℕ) (i : ℕ) (p : Point)
      → AllFor channels s
      → Agree (channels i) p (point_at s i)
      → Agree (channels i) (moves k (times i schedule) p) (point_at (pick_all k s schedule) i)
  pick_all-Agree s [] i p h a = a
  pick_all-Agree s (j ∷ schedule) i p h a = elim (Bool-cases (j == i)) [
    | inl mine ↦ rw mine (
        subst
          (λ j.
            Agree (channels i) (moves k (times i schedule) (move k p))
              (point_at (pick_all k (pick k s j) schedule) i))
          (sym ((==_iff j i).0 mine))
          (pick_all-Agree (pick k s i) schedule i (move k p) (pick-AllFor s i h)
            (pick-own s i p h a)))
    | inr other ↦ rw other (
        pick_all-Agree (pick k s j) schedule i p (pick-AllFor s j h) (pick-other s i j p h other a))
  ]

moves-add : (k a b : ℕ) (p : Point) → moves k (a + b) p ≡ moves k b (moves k a p)
moves-add k zero b p = ap (λ n. moves k n p) {x = zero + b} {y = b} (omega arith)
moves-add k (suc a) b p =
    ap (λ n. moves k n p) {x = suc a + b} {y = suc (a + b)} (omega arith)
    ∙ moves-add k a b (move k p)

moves-returned :
    (k n : ℕ) (m : AlarmManager) (w : World) (r : ℤ) (l : ℕ)
    → moves k n (point m w (returned r) l) ≡ point m w (returned r) l
unfolding move
moves-returned k zero m w r l = refl
moves-returned k (suc n) m w r l = moves-returned k n m w r l

-- A call that has returned stays where it is.
moves-IsDone :
    (k n : ℕ) (p : Point) {r : ℤ} {m : AlarmManager} {w : World}
    → 11 ≤ n
    → IsDone r m w (moves k 11 p)
    → IsDone r m w (moves k n p)
moves-IsDone k n p {r = r} {m = m} {w = w} le (em, ew, er) =
    let q = moves k 11 p in
    let split : moves k n p ≡ moves k (n - 11) q =
      ap (λ n. moves k n p) {x = n} {y = 11 + (n - 11)} (omega (arith, le))
      ∙ moves-add k 11 (n - 11) p in
    let ended : q ≡ point m w (returned r) q.loaded =
      ap (λ m. point m q.world q.pc q.loaded) em
      ∙ (ap (λ w. point m w q.pc q.loaded) ew ∙ ap (λ pc. point m w pc q.loaded) er) in
    let stays : moves k n p ≡ point m w (returned r) q.loaded =
      split ∙ (ap (moves k (n - 11)) ended ∙ moves-returned k (n - 11) m w r q.loaded) in
    (
      ap (λ (t : Point). t.manager) stays,
      ap (λ (t : Point). t.world) stays,
      ap (λ (t : Point). t.pc) stays,
    )

-- Let calls of `process_channel_alarms` for different channels start together, and let their threads take
-- their steps in any order. A call that, run alone on the manager and the world of the start, would
-- return, has returned the same once its thread has taken eleven steps; and the manager then has for its
-- channel the cooldown and the active alarm that the call alone would leave, with the same rules.
pub calls-Agree :
    (k : ℕ) (m : AlarmManager) (w : World) (frames : ℕ → Frame) (schedule : List ℕ) (i : ℕ) (r : ℤ)
    (m' : AlarmManager) (w' : World)
    → AreApart (λ j. (frames j).channel_id)
    → process_channel_alarms k m w (frames i) ≡ ok (r, m', w')
    → 11 ≤ times i schedule
    → (((pick_all k (calls_of m w frames) schedule).threads i).pc ≡ returned r)
      × Untouched m' (pick_all k (calls_of m w frames) schedule).manager (frames i).channel_id
calls-Agree k m w frames schedule i r m' w' apart e enough =
    let s = pick_all k (calls_of m w frames) schedule in
    let ch = (frames i).channel_id in
    let p = point m w (before_staff (frames i)) 0 in
    let (em, _, er) =
      moves-IsDone k (times i schedule) p enough (process-IsDone k m w (frames i) 0 r m' w' e) in
    let (same_pc, u) =
      pick_all-Agree k (λ j. (frames j).channel_id) apart (calls_of m w frames) schedule i p
        (λ j. refl) (refl, same m ch) in
    (sym same_pc ∙ er, subst (λ before. Untouched before s.manager ch) em u)
