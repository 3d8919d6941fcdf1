-- ===== src/Handler/Split.antt =====
-- What `split` and `strip` make of texts put together from parts.
use mathlib.Core.List.{reverse, reverse-reverse, reverse-append}
use multi_cctv_object_detect.Prelude.{
  ℕ, Bool, false, List, [], ◌∷◌, ◌++◌, ◌≡◌, ◌≢◌, refl, ap, ◌∙◌, append_assoc, append-nil, Bytes,
  All, ◌==◌, ==_iff, is_space,
}
use multi_cctv_object_detect.Handler.{
  split, split_from, strip, skip_while, is_leading_char, is_trailing_char,
}

abbrev pub Lacks : ℕ → Bytes → Type 0
Lacks sep = All (λ c. (c == sep) ≡ false)

module _ (sep : ℕ) where
  split_from-append :
      (cur w rest : Bytes)
      → Lacks sep w
      → split_from sep cur (w ++ rest) ≡ split_from sep (cur ++ w) rest
  unfolding split_from
  split_from-append cur [] rest _ = rw append-nil
  split_from-append cur (c ∷ w) rest (h, hs) =
      rw (h, split_from)
        (split_from-append (cur ++ c ∷ []) w rest hs
          ∙ ap (λ (t : Bytes). split_from sep t rest) (append_assoc cur (c ∷ []) w))

-- A part is read up to the separator behind it.
pub split-sep :
    (sep : ℕ) (w rest : Bytes)
    → Lacks sep w
    → split (w ++ sep ∷ rest) [] sep ≡ w ∷ split rest [] sep
unfolding split split_from
split-sep sep w rest h = split_from-append sep [] w _ h ∙ rw ((==_iff sep sep).1 refl, split_from)

-- A part with no separator behind it is read whole.
pub split-last : (sep : ℕ) (w : Bytes) → w ≢ [] → Lacks sep w → split w [] sep ≡ w ∷ []
unfolding split split_from
split-last sep [] ne h = absurd (ne refl)
split-last sep (c ∷ w) ne h = rw append-nil at (split_from-append sep [] (c ∷ w) [] h)

-- A text that does not begin with such a byte.
abbrev pub Stops : (ℕ → Bool) → Bytes → Type 0
Stops p [] = ⊥
Stops p (c ∷ s) = p c ≡ false

skip_leading :
    (name : Bytes)
    → Stops is_leading_char name
    → skip_while is_leading_char (name ++ b']' ∷ []) ≡ name ++ b']' ∷ []
skip_leading [] h = elim h [ ]
skip_leading (c ∷ name) h = rw h

module _ (p : ℕ → Bool) where
  skip-Stops : (s : Bytes) → Stops p s → skip_while p s ≡ s
  skip-Stops [] h = elim h [ ]
  skip-Stops (c ∷ s) h = rw h

  pub Stops-append : (s t : Bytes) → Stops p s → Stops p (s ++ t)
  Stops-append [] t h = elim h [ ]
  Stops-append (c ∷ s) t h = h

-- `strip` takes the brackets off a name.
pub strip-bracketed :
    (name : Bytes)
    → Stops is_leading_char name
    → Stops is_trailing_char (reverse name)
    → strip (b'[' ∷ (name ++ b']' ∷ [])) ≡ name
unfolding strip is_space
strip-bracketed name h k =
    rw (skip_leading name h, reverse-append name (b']' ∷ []))
      (rw (skip-Stops is_trailing_char (reverse name) k) (reverse-reverse name))

-- A text with no blank or bracket at its ends.
pub record Trim (s : Bytes) : Type 0 where
  pub start : Stops is_leading_char s
  pub end : Stops is_trailing_char (reverse s)

pub strip-Trim : (s : Bytes) → Trim s → strip s ≡ s
unfolding strip
strip-Trim s h =
    rw (skip-Stops is_leading_char s h.start, skip-Stops is_trailing_char (reverse s) h.end)
      (reverse-reverse s)

-- `strip` takes off a blank behind or before such a text.
pub strip-blank_after : (s : Bytes) → Trim s → strip (s ++ 32 ∷ []) ≡ s
unfolding strip is_space
strip-blank_after s h =
    rw
      (
        skip-Stops is_leading_char (s ++ 32 ∷ [])
            (Stops-append is_leading_char s (32 ∷ []) h.start),
        reverse-append s (32 ∷ []),
        skip-Stops is_trailing_char (reverse s) h.end,
      )
      (reverse-reverse s)

pub strip-blank_before : (s : Bytes) → Trim s → strip (32 ∷ s) ≡ s
unfolding strip is_space
strip-blank_before s h = strip-Trim s h

-- The lines of a text, each with its line feed.
abbrev pub unlines : List Bytes → Bytes
unlines [] = []
unlines (l ∷ ls) = l ++ 10 ∷ unlines ls

pub split-unlines : (ls : List Bytes) → All (Lacks 10) ls → split (unlines ls) [] 10 ≡ ls
unfolding split
split-unlines [] _ = refl
split-unlines (l ∷ ls) (h, hs) =
    rw (split-sep 10 l (unlines ls) h) (ap (◌∷◌ l) (split-unlines ls hs))
