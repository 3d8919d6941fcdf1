-- ===== src/Alarm/Compile.antt =====
-- The postfix form of a condition: what `postfix` writes for its tokens, and what `define_alarm`
-- computes from it.
use multi_cctv_object_detect.Prelude.{
  false, List, [], ◌∷◌, ◌++◌, ◌≡◌, refl, sym, ap, ◌∙◌, append_assoc, append-nil, Bytes, codes,
  bytes_eq, bytes_eq_iff, words, All, All-append, arith, ok,
}
use multi_cctv_object_detect.Handler.{
  Stack, make_space, postfix, postfix_loop, postfix_token, pop_until, pop_back,
}
use multi_cctv_object_detect.Handler.Words.{
  IsToken, spaced, spaced-append, pop_all-spaced, words-pop_back-spaced,
}
use multi_cctv_object_detect.Alarm.Syntax.{
  Operand, Condition, cls, negated, group, single, both, either, print, IsClass, SpelledOperand,
  Spelled,
}
use multi_cctv_object_detect.Alarm.Tokens.{
  tokens_operand, tokens, words-print, class-IsToken, not-IsToken, and-IsToken, or-IsToken,
}

-- The connectives that wait on the operator stack when the condition has been read.
unfoldable pub pending : Condition → List Bytes
pending (single o) = []
pending (both o c) = pending c ++ codes "and" ∷ []
pending (either o c) = pending c ++ codes "or" ∷ []

unfoldable mutual
  pub rpn_operand : Operand → List Bytes
  rpn_operand (cls w) = w ∷ []
  rpn_operand (negated o) = codes "not" ∷ rpn_operand o
  rpn_operand (group c) = body c ++ pending c

  -- What has been written when the condition has been read.
  pub body : Condition → List Bytes
  body (single o) = rpn_operand o
  body (both o c) = rpn_operand o ++ body c
  body (either o c) = rpn_operand o ++ body c

unfoldable pub rpn : Condition → List Bytes
rpn c = body c ++ pending c

postfix_token-class :
    (w : Bytes) (op : Stack) (out : Bytes)
    → IsClass w
    → postfix_token w (op, out) ≡ ok (op, out ++ spaced (w ∷ []))
unfolding postfix_token
postfix_token-class [] op out (_, ne, _) = absurd (ne refl)
postfix_token-class (c ∷ w) op out ((h, _), _, _) =
    ground (arith, append_assoc out (c ∷ w) (32 ∷ []))

postfix_token-not :
    (op : Stack) (out : Bytes)
    → postfix_token (codes "not") (op, out) ≡ ok (op, out ++ spaced (codes "not" ∷ []))
unfolding postfix_token
postfix_token-not op out = ap (λ (s : Bytes). ok (op, s)) (append_assoc out (codes "not") (32 ∷ []))

postfix_token-push :
    (op : Stack) (out : Bytes)
    → (postfix_token (codes "(") (op, out) ≡ ok (codes "(" ∷ op, out))
      × (postfix_token (codes "and") (op, out) ≡ ok (codes "and" ∷ op, out))
      × (postfix_token (codes "or") (op, out) ≡ ok (codes "or" ∷ op, out))
unfolding postfix_token
postfix_token-push op out = (refl, refl, refl)

pub pop_until-append :
    (opener : Bytes) (ts : List Bytes) (op : Stack) (out : Bytes)
    → All (λ t. bytes_eq t opener ≡ false) ts
    → pop_until opener (ts ++ opener ∷ op) out ≡ (opener ∷ op, out ++ spaced ts)
unfolding pop_until
pop_until-append opener [] op out _ =
    rw ((bytes_eq_iff opener opener).1 refl, pop_until)
      (ap (λ (s : Bytes). (opener ∷ op, s)) (sym (append-nil out)))
pop_until-append opener (t ∷ ts) op out (h, hs) =
    rw (h, pop_until)
      (pop_until-append opener ts op (out ++ t ++ 32 ∷ []) hs
        ∙ ap (λ (s : Bytes). (opener ∷ op, s)) (simp append_assoc))

pub pending-All :
    (opener : Bytes) (c : Condition)
    → bytes_eq (codes "and") opener ≡ false
    → bytes_eq (codes "or") opener ≡ false
    → All (λ t. bytes_eq t opener ≡ false) (pending c)
unfolding pending
pending-All opener (single o) a r = tt
pending-All opener (both o c) a r =
    All-append _ (pending c) (codes "and" ∷ []) (pending-All opener c a r) (a, tt)
pending-All opener (either o c) a r =
    All-append _ (pending c) (codes "or" ∷ []) (pending-All opener c a r) (r, tt)

postfix_token-closer :
    (c : Condition) (op : Stack) (out : Bytes)
    → postfix_token (codes ")") (pending c ++ codes "(" ∷ op, out)
      ≡ ok (op, out ++ spaced (pending c))
unfolding postfix_token
postfix_token-closer c op out =
    rw (pop_until-append (codes "(") (pending c) op out (pending-All _ c refl refl))

-- What is written in two steps is written in one.
postfix_loop-state :
    (ts : List Bytes) (op : Stack) (out : Bytes) (vs ws : List Bytes)
    → postfix_loop ts (op, out ++ spaced vs ++ spaced ws)
      ≡ postfix_loop ts (op, out ++ spaced (vs ++ ws))
postfix_loop-state ts op out vs ws =
    ap (λ (s : Bytes). postfix_loop ts (op, s))
      (append_assoc out (spaced vs) (spaced ws) ∙ ap (◌++◌ out) (sym (spaced-append vs ws)))

mutual
  unfolding postfix_loop tokens_operand rpn_operand pending SpelledOperand

  pub postfix_loop-operand :
      (o : Operand) (ts : List Bytes) (op : Stack) (out : Bytes)
      → SpelledOperand o
      → postfix_loop (tokens_operand o ++ ts) (op, out)
        ≡ postfix_loop ts (op, out ++ spaced (rpn_operand o))
  postfix_loop-operand (cls w) ts op out h = rw (postfix_token-class w op out h)
  postfix_loop-operand (negated o) ts op out h = rw (postfix_token-not op out) (
      postfix_loop-operand o ts op _ h
      ∙ postfix_loop-state ts op out (codes "not" ∷ []) (rpn_operand o))
  postfix_loop-operand (group c) ts op out h =
      rw ((postfix_token-push op out).0, append_assoc (tokens c))
        (postfix_loop-condition c _ _ out h
          ∙ rw (postfix_token-closer c op (out ++ spaced (body c)))
              (postfix_loop-state ts op out (body c) (pending c)))

  pub postfix_loop-condition :
      (c : Condition) (ts : List Bytes) (op : Stack) (out : Bytes)
      → Spelled c
      → postfix_loop (tokens c ++ ts) (op, out)
        ≡ postfix_loop ts (pending c ++ op, out ++ spaced (body c))
  postfix_loop-condition (single o) ts op out h = postfix_loop-operand o ts op out h
  postfix_loop-condition (both o c) ts op out (ho, hc) =
      rw (append_assoc (tokens_operand o), append_assoc (pending c))
        (postfix_loop-operand o _ op out ho
          ∙ rw ((postfix_token-push op _).1) (
              postfix_loop-condition c ts _ _ hc
              ∙ postfix_loop-state ts _ out (rpn_operand o) (body c)))
  postfix_loop-condition (either o c) ts op out (ho, hc) =
      rw (append_assoc (tokens_operand o), append_assoc (pending c))
        (postfix_loop-operand o _ op out ho
          ∙ rw ((postfix_token-push op _).2) (
              postfix_loop-condition c ts _ _ hc
              ∙ postfix_loop-state ts _ out (rpn_operand o) (body c)))

pub pending-IsToken : (c : Condition) → All IsToken (pending c)
unfolding pending
pending-IsToken (single o) = tt
pending-IsToken (both o c) = All-append IsToken (pending c) _ (pending-IsToken c) (and-IsToken, tt)
pending-IsToken (either o c) = All-append IsToken (pending c) _ (pending-IsToken c) (or-IsToken, tt)

mutual
  unfolding rpn_operand pending SpelledOperand

  pub rpn_operand-All : (o : Operand) → SpelledOperand o → All IsToken (rpn_operand o)
  rpn_operand-All (cls w) h = (class-IsToken w h, tt)
  rpn_operand-All (negated o) h = (not-IsToken, rpn_operand-All o h)
  rpn_operand-All (group c) h =
      All-append IsToken (body c) (pending c) (body-All c h) (pending-IsToken c)

  pub body-All : (c : Condition) → Spelled c → All IsToken (body c)
  body-All (single o) h = rpn_operand-All o h
  body-All (both o c) (ho, hc) =
      All-append IsToken (rpn_operand o) (body c) (rpn_operand-All o ho) (body-All c hc)
  body-All (either o c) (ho, hc) =
      All-append IsToken (rpn_operand o) (body c) (rpn_operand-All o ho) (body-All c hc)

-- The text of the postfix form.
unfoldable pub compiled : Condition → Bytes
compiled c = pop_back (spaced (rpn c))

-- `postfix` compiles a printed condition.
pub postfix-print : (c : Condition) → Spelled c → postfix (make_space (print c)) ≡ ok (compiled c)
unfolding postfix rpn compiled
postfix-print c h =
    rw (words-print c h, read, append-nil (pending c))
      (ap (λ (t : Bytes). ok (pop_back t))
        (pop_all-spaced (pending c) (spaced (body c)) ∙ sym (spaced-append (body c) (pending c))))
  where
    read : postfix_loop (tokens c) ([], []) ≡ ok (pending c ++ [], spaced (body c))
    read = rw (append-nil (tokens c)) at (postfix_loop-condition c [] [] [] h)

pub words-compiled : (c : Condition) → Spelled c → words (compiled c) ≡ rpn c
unfolding compiled rpn
words-compiled c h =
    words-pop_back-spaced (rpn c)
      (All-append IsToken (body c) (pending c) (body-All c h) (pending-IsToken c))
