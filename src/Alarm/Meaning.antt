-- ===== src/Alarm/Meaning.antt =====
-- `define_alarm` on a condition line of the alarm file: `make_space` and `postfix` as `read_conf`
-- calls them, then the evaluation over the history.
use multi_cctv_object_detect.Prelude.{
  ℕ, zero, suc, ltb→lt, ℤ, ◌-◌, ◌≤◌, Bool, true, false, List, [], ◌∷◌, map, ◌≡◌, ◌≢◌, ◌↔◌, refl, ap,
  ◌∙◌, Bytes, arith, ok, ◌>>=◌, if◌then◌else◌, ltb, length, drop, All, inl, inr, Bool-cases,
}
use multi_cctv_object_detect.Handler.{make_space, postfix}
use multi_cctv_object_detect.Alarm.{
  DetectedHistoryItem, eval_item, eval_history, all_true, define_alarm,
}
use multi_cctv_object_detect.Alarm.Syntax.{Condition, print, Spelled, Plain, holds, reads-holds}
use multi_cctv_object_detect.Alarm.Compile.{compiled, postfix-print}
use multi_cctv_object_detect.Alarm.Evaluate.{eval_item-compiled, compiled-ne-nil}

-- The last `k` items, or all where there are fewer.
abbrev pub last_frames {ℓ} : {A : Type ℓ} → ℕ → List A → List A
last_frames k xs = drop (length xs - k) xs

-- A condition of the alarm file, with class numbers that fit an `int` and `not` in front of class
-- numbers only: its text, put into postfix form and evaluated for the classes of a frame, gives the
-- meaning of the condition, without a fault.
eval_item-print :
    (c : Condition) (classes : List ℤ)
    → Spelled c
    → Plain c
    → (postfix (make_space (print c)) >>= λ s. eval_item s classes) ≡ ok (holds classes c)
eval_item-print c classes h p =
    rw (postfix-print c h)
      (eval_item-compiled c classes h ∙ ap (λ (b : Bool). ok b) (reads-holds classes c p))

module _ (f : List ℤ → Bool) (s : Bytes)
    (value : (classes : List ℤ) → eval_item s classes ≡ ok (f classes)) where
  eval_history-map :
      (history : List DetectedHistoryItem)
      → eval_history s history ≡ ok (map (λ i. f i.detected_classes) history)
  unfolding eval_history
  eval_history-map [] = refl
  eval_history-map (i ∷ history) = rw (value i.detected_classes, eval_history-map history)

length-map :
    (f : DetectedHistoryItem → Bool) (xs : List DetectedHistoryItem) → length (map f xs) ≡ length xs
length-map f [] = refl
length-map f (x ∷ xs) = omega (arith, length-map f xs)

drop-map :
    (f : DetectedHistoryItem → Bool) (n : ℕ) (xs : List DetectedHistoryItem)
    → drop n (map f xs) ≡ map f (drop n xs)
drop-map f zero xs = refl
drop-map f (suc n) [] = refl
drop-map f (suc n) (x ∷ xs) = drop-map f n xs

all_true-map :
    (f : DetectedHistoryItem → Bool) (xs : List DetectedHistoryItem)
    → (all_true (map f xs) ≡ true) ↔ All (λ i. f i ≡ true) xs
unfolding all_true
all_true-map f [] = (λ _. tt, λ _. refl)
all_true-map f (x ∷ xs) = ground (arith, all_true-map f xs)

module _ (f : DetectedHistoryItem → Bool) (k : ℕ) (xs : List DetectedHistoryItem) where
  abbrev InEach : Type 0
  InEach = (k ≤ length xs) × All (λ i. f i ≡ true) (last_frames k xs)

  few_frames : ltb (length (map f xs)) k ≡ true → (false ≡ true) ↔ InEach
  few_frames few = (λ e. cc, λ h. absurd (omega (arith, ltb→lt _ k few, length-map f xs, h.0)))

  enough_frames :
      ltb (length (map f xs)) k ≡ false
      → (all_true (drop (length (map f xs) - k) (map f xs)) ≡ true) ↔ InEach
  enough_frames enough = rw (drop-map f (length (map f xs) - k) xs) (
    λ e. (ground (arith, length-map f xs), rw length-map at ((all_true-map f _).0 e)),
    λ h. (all_true-map f _).1 (rw length-map h.1),
  )

define_alarm-history :
    (k : ℕ) (s : Bytes) (history : List DetectedHistoryItem) (bs : List Bool)
    → s ≢ []
    → eval_history s history ≡ ok bs
    → define_alarm k s history
      ≡ (if ltb (length bs) k then ok false else ok (all_true (drop (length bs - k) bs)))
unfolding define_alarm
define_alarm-history k [] history bs ne e = absurd (ne refl)
define_alarm-history k (c ∷ s) history bs ne e = rw e

module _ (k : ℕ) (c : Condition) (history : List DetectedHistoryItem) where
  -- The condition holds in each of the last `k` frames, and there are as many.
  abbrev pub HoldsInEach : Type 0
  HoldsInEach = InEach (λ i. holds i.detected_classes c) k history

  pub define_alarm-compiled :
      Spelled c
      → Plain c
      → (b : Bool) × (define_alarm k (compiled c) history ≡ ok b) × ((b ≡ true) ↔ HoldsInEach)
  define_alarm-compiled h p =
      let values : List Bool = map (λ i. holds i.detected_classes c) history in
      let evaluated : eval_history (compiled c) history ≡ ok values =
        eval_history-map (λ classes. holds classes c) (compiled c)
          (λ classes.
            eval_item-compiled c classes h ∙ ap (λ (b : Bool). ok b) (reads-holds classes c p))
          history in
      let decided =
        define_alarm-history k (compiled c) history values (compiled-ne-nil c h) evaluated in
      elim (Bool-cases (ltb (length values) k)) [
        | inl few ↦ (false, decided ∙ rw few, few_frames _ k history few)
        | inr enough ↦ (
          all_true (drop (length values - k) values),
          decided ∙ rw enough,
          enough_frames _ k history enough,
        )
      ]

  -- For a condition of the alarm file, with class numbers that fit an `int` and `not` in front of
  -- class numbers only, and with its text put into postfix form, `define_alarm` always returns a
  -- value; it is `true` exactly when the history holds at least `k` frames and the condition holds
  -- in each of the last `k`.
  pub define_alarm-print :
      Spelled c
      → Plain c
      → (b : Bool) × ((postfix (make_space (print c)) >>= λ s. define_alarm k s history) ≡ ok b)
        × ((b ≡ true) ↔ (
            (k ≤ length history)
            × All (λ i. holds i.detected_classes c ≡ true) (last_frames k history)))
  define_alarm-print h p = rw (postfix-print c h) (define_alarm-compiled h p)
