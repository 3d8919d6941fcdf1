-- ===== src/Alarm/Misread.antt =====
-- src/config/Handler.cpp with src/alarm/alarm.cpp: conditions with a negated group, or with braces.
use multi_cctv_object_detect.Prelude.{
  ℤ, pos, Bool, false, not, ◌&&◌, ◌||◌, List, [], ◌∷◌, ◌++◌, ◌≡◌, refl, sym, ap, ◌∙◌, append_assoc,
  append-nil, Bytes, codes, is_space, words, digits_value, ok, ◌>>=◌, All, All-append,
}
use multi_cctv_object_detect.Handler.{
  Stack, make_space, postfix, postfix_loop, postfix_token, pop_until, pop_back,
}
use multi_cctv_object_detect.Handler.Words.{
  IsToken, spaced, pop_all-spaced, words-pop_back-spaced, spaced-append,
}
use multi_cctv_object_detect.Alarm.{contains, machine, eval_token, eval_tokens, eval_item}
use multi_cctv_object_detect.Alarm.Syntax.{
  Operand, Condition, cls, negated, group, single, either, print, IsClass, Spelled, SpelledOperand,
  Plain, reads_operand, reads, holds, reads-holds,
}
use multi_cctv_object_detect.Alarm.Tokens.{tokens_operand, tokens, and-IsToken, or-IsToken}
use multi_cctv_object_detect.Alarm.Compile.{
  postfix-print, pending, rpn_operand, body, pop_until-append, pending-All, postfix_loop-operand,
  postfix_loop-condition, rpn_operand-All, body-All, pending-IsToken,
}
use multi_cctv_object_detect.Alarm.Evaluate.{
  eval_item-compiled, eval_tokens-operand, eval_tokens-condition,
}

-- Whether a class number is among the classes.
abbrev pub seen : List ℤ → Bytes → Bool
seen classes w = contains classes (pos (digits_value 0 w))

-- With class numbers that fit an `int`, and in `c` no `not` but in front of class numbers,
-- `not ( a or c )` is read as `(not a) or c`: of this group only the first class is negated.
pub not_group-either :
    (a : Bytes) (c : Condition) (classes : List ℤ)
    → IsClass a
    → Spelled c
    → Plain c
    → (postfix (make_space (print (single (negated (group (either (cls a) c)))))) >>= λ s.
        eval_item s classes)
      ≡ ok (not (seen classes a) || holds classes c)
unfolding reads_operand SpelledOperand
not_group-either a c classes ha hc p =
    let whole = single (negated (group (either (cls a) c))) in
    rw (postfix-print whole (ha, hc))
      (eval_item-compiled whole classes (ha, hc) ∙ rw (reads-holds classes c p))

-- The tokens of `{ o and { c } } or d`.
abbrev braced : Operand → Condition → Condition → List Bytes
braced o c d =
    codes "{"
    ∷ (tokens_operand o
        ++ codes "and" ∷ codes "{" ∷ (tokens c ++ codes "}" ∷ codes "}" ∷ codes "or" ∷ tokens d))

module _ (o : Operand) (c d : Condition) (ho : SpelledOperand o) (hc : Spelled c)
    (hd : Spelled d) where
  abbrev left_over : Stack
  left_over = codes "or" ∷ codes "{" ∷ codes "and" ∷ codes "{" ∷ []

  written_before : List Bytes
  written_before = rpn_operand o ++ (body c ++ pending c)

  postfix_loop-right :
      postfix_loop (tokens d) (left_over, spaced written_before)
      ≡ ok (pending d ++ left_over, spaced (written_before ++ body d))
  unfolding postfix_loop
  postfix_loop-right =
      rw (append-nil (tokens d), ← spaced-append written_before (body d)) at
        (postfix_loop-condition d [] left_over (spaced written_before) hd)

  postfix_loop-braced :
      postfix_loop (braced o c d) ([], [])
      ≡ ok (pending d ++ left_over, spaced (written_before ++ body d))
  unfolding postfix_loop postfix_token pop_until written_before
  postfix_loop-braced =
      postfix_loop-operand o _ (codes "{" ∷ []) [] ho
      ∙ (postfix_loop-condition c _ (codes "{" ∷ codes "and" ∷ codes "{" ∷ []) _ hc
          ∙ rw (pop_until-append (codes "{") (pending c) _ _ (pending-All _ c refl refl)) (
              ap (λ (t : Bytes). postfix_loop (tokens d) (left_over, t))
                (append_assoc (spaced (rpn_operand o)) _ _ ∙ simp spaced-append)
              ∙ postfix_loop-right))

  abbrev braced_rpn : List Bytes
  braced_rpn = (written_before ++ body d) ++ (pending d ++ left_over)

  postfix-braced :
      (s : Bytes) → words s ≡ braced o c d → postfix s ≡ ok (pop_back (spaced braced_rpn))
  unfolding postfix
  postfix-braced s e =
      rw (e, postfix_loop-braced)
        (ap (λ (t : Bytes). ok (pop_back t))
          (pop_all-spaced _ _
            ∙ sym (spaced-append (written_before ++ body d) (pending d ++ left_over))))

  braced_rpn-All : All IsToken braced_rpn
  unfolding written_before is_space
  braced_rpn-All =
      All-append IsToken (written_before ++ body d) _
        (All-append IsToken written_before (body d)
          (All-append IsToken (rpn_operand o) _ (rpn_operand-All o ho)
            (All-append IsToken (body c) _ (body-All c hc) (pending-IsToken c)))
          (body-All d hd))
        (All-append IsToken (pending d) _ (pending-IsToken d)
          (or-IsToken, ((cc, (refl, tt)), (and-IsToken, ((cc, (refl, tt)), tt)))))

  eval_tokens-braced :
      (classes : List ℤ)
      → eval_tokens classes braced_rpn (machine [] false)
        ≡ ok (
            machine
              ((reads_operand classes false o && (reads classes false c || reads classes false d))
                ∷ [])
              false)
  unfolding written_before eval_tokens eval_token
  eval_tokens-braced classes = simp append_assoc (
      eval_tokens-operand classes o _ [] false ho
      ∙ (eval_tokens-condition classes c _ _ false hc
          ∙ eval_tokens-condition classes d left_over _ false hd))

  -- With class numbers that fit an `int`, `{ o and { c } } or d` is read as `o and (c or d)`, whatever
  -- text has these words.
  pub braces_regroup :
      (s : Bytes) (classes : List ℤ)
      → words s ≡ braced o c d
      → (postfix s >>= λ t. eval_item t classes)
        ≡ ok (reads_operand classes false o && (reads classes false c || reads classes false d))
  unfolding eval_item
  braces_regroup s classes e = rw (
    postfix-braced s e,
    words-pop_back-spaced braced_rpn braced_rpn-All,
    eval_tokens-braced classes,
  )
