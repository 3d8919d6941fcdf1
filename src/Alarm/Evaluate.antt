-- ===== src/Alarm/Evaluate.antt =====
-- What `define_alarm` computes for one frame from the postfix form of a condition.
use multi_cctv_object_detect.Prelude.{
  ℤ, pos, Bool, true, false, ◌&&◌, ◌||◌, List, [], ◌∷◌, ◌++◌, ◌≡◌, ◌≢◌, refl, sym, ap, ◌∙◌,
  append_assoc, append-nil, Bytes, codes, digits_value, stoi, words, arith, ok,
}
use multi_cctv_object_detect.Handler.Words.{words-nil}
use multi_cctv_object_detect.Alarm.{machine, eval_token, eval_tokens, eval_item}
use multi_cctv_object_detect.Alarm.Syntax.{
  Operand, Condition, cls, negated, group, single, both, either, IsClass, SpelledOperand, Spelled,
  reads_operand, reads,
}
use multi_cctv_object_detect.Alarm.Tokens.{digit-not-space}
use multi_cctv_object_detect.Alarm.Compile.{
  rpn_operand, rpn, body, pending, compiled, words-compiled,
}

-- `std::stoi` reads a class number whole.
pub stoi-class : (w : Bytes) → IsClass w → stoi w ≡ ok (pos (digits_value 0 w))
unfolding stoi
stoi-class [] (_, ne, _) = absurd (ne refl)
stoi-class (c ∷ w) ((h, hs), ne, fits) = ground (arith, digit-not-space c h)

module _ (classes : List ℤ) where
  eval_token-class :
      (w : Bytes) (vs : List Bool) (b : Bool)
      → IsClass w
      → eval_token classes w (machine vs b)
        ≡ ok (machine (reads_operand classes b (cls w) ∷ vs) false)
  unfolding eval_token reads_operand
  eval_token-class [] vs b (_, ne, _) = absurd (ne refl)
  eval_token-class (c ∷ w) vs b h = ground (arith, stoi-class (c ∷ w) h, h.0.0)

  eval_token-connective :
      (val1 val2 b : Bool) (vs : List Bool)
      → (eval_token classes (codes "and") (machine (val2 ∷ val1 ∷ vs) b)
          ≡ ok (machine ((val1 && val2) ∷ vs) b))
        × (eval_token classes (codes "or") (machine (val2 ∷ val1 ∷ vs) b)
            ≡ ok (machine ((val1 || val2) ∷ vs) b))
        × (eval_token classes (codes "not") (machine vs b) ≡ ok (machine vs true))
  unfolding eval_token
  eval_token-connective val1 val2 b vs = (refl, refl, refl)

  mutual
    unfolding eval_tokens rpn_operand pending reads_operand SpelledOperand

    pub eval_tokens-operand :
        (o : Operand) (ts : List Bytes) (vs : List Bool) (b : Bool)
        → SpelledOperand o
        → eval_tokens classes (rpn_operand o ++ ts) (machine vs b)
          ≡ eval_tokens classes ts (machine (reads_operand classes b o ∷ vs) false)
    eval_tokens-operand (cls w) ts vs b h = rw (eval_token-class w vs b h)
    eval_tokens-operand (negated o) ts vs b h =
        rw ((eval_token-connective true true b vs).2) (eval_tokens-operand o ts vs true h)
    eval_tokens-operand (group c) ts vs b h =
        rw (append_assoc (body c)) (eval_tokens-condition c ts vs b h)

    pub eval_tokens-condition :
        (c : Condition) (ts : List Bytes) (vs : List Bool) (b : Bool)
        → Spelled c
        → eval_tokens classes (body c ++ (pending c ++ ts)) (machine vs b)
          ≡ eval_tokens classes ts (machine (reads classes b c ∷ vs) false)
    eval_tokens-condition (single o) ts vs b h = eval_tokens-operand o ts vs b h
    eval_tokens-condition (both o c) ts vs b (ho, hc) =
        rw (append_assoc (rpn_operand o), append_assoc (pending c))
          (eval_tokens-operand o _ vs b ho
            ∙ (eval_tokens-condition c _ _ false hc ∙ rw ((eval_token-connective _ _ false vs).0)))
    eval_tokens-condition (either o c) ts vs b (ho, hc) =
        rw (append_assoc (rpn_operand o), append_assoc (pending c))
          (eval_tokens-operand o _ vs b ho
            ∙ (eval_tokens-condition c _ _ false hc ∙ rw ((eval_token-connective _ _ false vs).1)))

  eval_tokens-rpn :
      (c : Condition)
      → Spelled c
      → eval_tokens classes (rpn c) (machine [] false)
        ≡ ok (machine (reads classes false c ∷ []) false)
  unfolding rpn eval_tokens
  eval_tokens-rpn c h = rw append-nil at (eval_tokens-condition c [] [] false h)

rpn-ne-nil : (c : Condition) → Spelled c → rpn c ≢ []
unfolding eval_tokens
rpn-ne-nil c h e = cc (rw e at (eval_tokens-rpn [] c h))

pub compiled-ne-nil : (c : Condition) → Spelled c → compiled c ≢ []
compiled-ne-nil c h nil = rpn-ne-nil c h (sym (words-compiled c h) ∙ (ap words nil ∙ words-nil))

-- The postfix form of a condition evaluates to the program's reading of it.
pub eval_item-compiled :
    (c : Condition) (classes : List ℤ)
    → Spelled c
    → eval_item (compiled c) classes ≡ ok (reads classes false c)
unfolding eval_item
eval_item-compiled c classes h = rw (words-compiled c h, eval_tokens-rpn classes c h)
