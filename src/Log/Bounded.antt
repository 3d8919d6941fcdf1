-- ===== src/Log/Bounded.antt =====
-- include/config/logHandler.h: the lines that a log holds after its pushes.
use multi_cctv_object_detect.Prelude.{
  ℕ, zero, suc, ℤ, ◌+◌, ◌-◌, ◌≤◌, List, [], ◌∷◌, ◌++◌, ◌≡◌, refl, sym, ap, ◌∙◌, append_assoc,
  append-nil, Bytes, length, drop, length-append, length-drop, arith, ltb, if◌then◌else◌, inl, inr,
  Bool-cases, ltb→lt, ltb→le,
}
use multi_cctv_object_detect.Log.{
  Log, new_log, Level, limit, pop_front, append_line, append_lines, push, line_prefix,
}

-- The last `n` items.
abbrev pub last_n {ℓ} : {A : Type ℓ} → ℕ → List A → List A
last_n n xs = drop (length xs - n) xs

-- The log's lines are the last ones of a history.
abbrev pub Shows : Log → List Bytes → Type 0
Shows l history = l.last_lines ≡ last_n (limit l) history

drop-snoc :
    (n : ℕ) (xs : List Bytes) (x : Bytes)
    → n ≤ length xs
    → drop n (xs ++ x ∷ []) ≡ drop n xs ++ x ∷ []
drop-snoc zero xs x h = refl
drop-snoc (suc n) [] x h = absurd (omega arith)
drop-snoc (suc n) (y ∷ xs) x h = drop-snoc n xs x (omega arith)

pop_front-drop : (n : ℕ) (xs : List Bytes) → pop_front (drop n xs) ≡ drop (suc n) xs
pop_front-drop zero [] = refl
pop_front-drop zero (x ∷ xs) = refl
pop_front-drop (suc n) [] = refl
pop_front-drop (suc n) (x ∷ xs) = pop_front-drop n xs

abbrev pushed : ℕ → List Bytes → Bytes → List Bytes
pushed n ls line =
    let lines = ls ++ line ∷ [] in if ltb n (length lines) then pop_front lines else lines

pushed-last_n :
    (n : ℕ) (xs : List Bytes) (x : Bytes) → pushed n (last_n n xs) x ≡ last_n n (xs ++ x ∷ [])
pushed-last_n n xs x =
    let shift = length xs - n in
    let moved = drop-snoc shift xs x (omega arith) in
    let size : length (drop shift xs ++ x ∷ []) ≡ length xs - shift + 1 =
      omega (arith, length-append (drop shift xs) (x ∷ []), length-drop shift xs) in
    elim (Bool-cases (ltb n (length (drop shift xs ++ x ∷ [])))) [
      | inl full ↦ rw full (
          ap pop_front (sym moved)
          ∙ (pop_front-drop shift (xs ++ x ∷ [])
              ∙ ap (λ (k : ℕ). drop k (xs ++ x ∷ [])) {x = suc shift}
                  (omega (arith, ltb→lt n _ full, size, length-append xs (x ∷ [])))))
      | inr room ↦ rw room (
          sym moved
          ∙ ap (λ (k : ℕ). drop k (xs ++ x ∷ [])) {x = shift}
              (omega (arith, ltb→le n _ room, size, length-append xs (x ∷ []))))
    ]

append_line-limit : (l : Log) (line : Bytes) → limit (append_line l line) ≡ limit l
unfolding append_line
append_line-limit l line = refl

-- One line more: the window moves by one, and drops its oldest line when it is full.
append_line-Shows :
    (l : Log) (line : Bytes) (history : List Bytes)
    → Shows l history
    → Shows (append_line l line) (history ++ line ∷ [])
unfolding append_line
append_line-Shows l line history h =
    ap (λ (ls : List Bytes). pushed (limit l) ls line) h ∙ pushed-last_n (limit l) history line

pub append_lines-Shows :
    (lines : List Bytes) (l : Log) (history : List Bytes)
    → Shows l history
    → Shows (append_lines l lines) (history ++ lines)
unfolding append_lines
append_lines-Shows [] l history h = rw append-nil h
append_lines-Shows (line ∷ lines) l history h =
    rw append_assoc at
      (append_lines-Shows lines (append_line l line) _ (append_line-Shows l line history h))

pub append_lines-limit : (lines : List Bytes) (l : Log) → limit (append_lines l lines) ≡ limit l
unfolding append_lines
append_lines-limit [] l = refl
append_lines-limit (line ∷ lines) l =
    append_lines-limit lines (append_line l line) ∙ append_line-limit l line

drop-nil : (n : ℕ) → drop {A = Bytes} n [] ≡ []
drop-nil zero = refl
drop-nil (suc n) = refl

-- A new log shows the last lines of the empty history.
pub new_log-Shows : (fname : Bytes) (max : ℤ) → Shows (new_log fname max) []
new_log-Shows fname max = sym (drop-nil (0 - limit (new_log fname max)))

-- If a log holds the last `limit` lines of a history, or all where there are fewer, then after a push
-- it does so for the history with one line more: the push's prefix and message.
pub push-Shows :
    (l : Log) (now : Bytes) (level : Level) (message : Bytes) (thread_num : ℤ)
    (history : List Bytes)
    → Shows l history
    → Shows
        (push l now level message thread_num)
        (history ++ (line_prefix now level thread_num ++ message) ∷ [])
unfolding push
push-Shows l now level message thread_num history h = append_line-Shows l _ history h

-- So it holds at most `limit` lines.
Shows-length-le : (l : Log) (history : List Bytes) → Shows l history → length l.last_lines ≤ limit l
Shows-length-le l history h =
    omega (arith, ap length h, length-drop (length history - limit l) history)
