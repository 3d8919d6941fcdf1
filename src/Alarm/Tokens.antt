-- ===== src/Alarm/Tokens.antt =====
-- The tokens of a printed condition, as `postfix` reads them behind `make_space`.
use multi_cctv_object_detect.Prelude.{
  ℕ, true, false, List, [], ◌∷◌, ◌++◌, ◌≡◌, refl, sym, ap, ◌∙◌, append_assoc, append-nil, Bytes,
  codes, is_digit, is_space, words, All, All-map, arith,
}
use multi_cctv_object_detect.Handler.{make_space, is_bracket}
use multi_cctv_object_detect.Handler.Words.{
  IsToken, Breaks, words-token, words-space, words-nil, make_space-append,
}
use multi_cctv_object_detect.Alarm.Syntax.{
  Operand, Condition, cls, negated, group, single, both, either, print_operand, print, IsClass,
  SpelledOperand, Spelled,
}

unfoldable mutual
  pub tokens_operand : Operand → List Bytes
  tokens_operand (cls w) = w ∷ []
  tokens_operand (negated o) = codes "not" ∷ tokens_operand o
  tokens_operand (group c) = codes "(" ∷ (tokens c ++ codes ")" ∷ [])

  pub tokens : Condition → List Bytes
  tokens (single o) = tokens_operand o
  tokens (both o c) = tokens_operand o ++ codes "and" ∷ tokens c
  tokens (either o c) = tokens_operand o ++ codes "or" ∷ tokens c

digit-not-bracket : (c : ℕ) → is_digit c ≡ true → is_bracket c ≡ false
digit-not-bracket c h = ground arith

pub digit-not-space : (c : ℕ) → is_digit c ≡ true → is_space c ≡ false
unfolding is_space
digit-not-space c h = ground arith

make_space-digits : (w : Bytes) → All (λ c. is_digit c ≡ true) w → make_space w ≡ w
unfolding make_space
make_space-digits [] h = refl
make_space-digits (c ∷ w) (h, hs) = ground (arith, digit-not-bracket c h, make_space-digits w hs)

pub class-IsToken : (w : Bytes) → IsClass w → IsToken w
class-IsToken w (digits, ne, _) =
    (ne, All-map (λ c. is_digit c ≡ true) (λ c. is_space c ≡ false) w digit-not-space digits)

blank : is_space 32 ≡ true
unfolding is_space
blank = refl

pub not-IsToken : IsToken (codes "not")
unfolding is_space
not-IsToken = (cc, (refl, (refl, (refl, tt))))

pub and-IsToken : IsToken (codes "and")
unfolding is_space
and-IsToken = (cc, (refl, (refl, (refl, tt))))

pub or-IsToken : IsToken (codes "or")
unfolding is_space
or-IsToken = (cc, (refl, (refl, tt)))

opener-IsToken : IsToken (codes "(")
unfolding is_space
opener-IsToken = (cc, (refl, tt))

closer-IsToken : IsToken (codes ")")
unfolding is_space
closer-IsToken = (cc, (refl, tt))

-- A token between blanks.
words-between : (w rest : Bytes) → IsToken w → words (32 ∷ (w ++ (32 ∷ rest))) ≡ w ∷ words rest
words-between w rest h =
    words-space 32 _ blank ∙ (words-token w _ h blank ∙ ap (◌∷◌ w) (words-space 32 rest blank))

-- `left word rest`, where the tokens of `left` are read already.
words-connective :
    (left right : List Bytes) (word tail rest : Bytes)
    → IsToken word
    → words tail ≡ right ++ words rest
    → left ++ words (32 ∷ (word ++ (32 ∷ tail))) ≡ (left ++ word ∷ right) ++ words rest
words-connective left right word tail rest h e =
    ap (◌++◌ left) (words-between word tail h ∙ ap (◌∷◌ word) e)
    ∙ sym (append_assoc left (word ∷ right) (words rest))

mutual
  unfolding make_space print_operand tokens_operand SpelledOperand

  words-print_operand :
      (o : Operand) (rest : Bytes)
      → SpelledOperand o
      → Breaks rest
      → words (make_space (print_operand o) ++ rest) ≡ tokens_operand o ++ words rest
  words-print_operand (cls w) rest h b =
      rw (make_space-digits w h.0) (words-token w rest (class-IsToken w h) b)
  words-print_operand (negated o) rest h b =
      words-token (codes "not") _ not-IsToken blank
      ∙ ap (◌∷◌ (codes "not")) (words-space 32 _ blank ∙ words-print_operand o rest h b)
  words-print_operand (group c) rest h b =
      rw (make_space-append (print c) (b')' ∷ []), append_assoc)
        (words-between (codes "(") _ opener-IsToken
          ∙ ap (◌∷◌ (codes "(")) (
              words-print_block c _ h blank
              ∙ (ap (◌++◌ (tokens c)) (words-between (codes ")") rest closer-IsToken)
                  ∙ sym (append_assoc (tokens c) (codes ")" ∷ []) (words rest)))))

  words-print_block :
      (c : Condition) (rest : Bytes)
      → Spelled c
      → Breaks rest
      → words (make_space (print c) ++ rest) ≡ tokens c ++ words rest
  words-print_block (single o) rest h b = words-print_operand o rest h b
  words-print_block (both o c) rest (ho, hc) b =
      rw (make_space-append (print_operand o) _, append_assoc (make_space (print_operand o)) _ rest)
        (words-print_operand o _ ho blank
          ∙ words-connective (tokens_operand o) (tokens c) _ _ rest and-IsToken
              (words-print_block c rest hc b))
  words-print_block (either o c) rest (ho, hc) b =
      rw (make_space-append (print_operand o) _, append_assoc (make_space (print_operand o)) _ rest)
        (words-print_operand o _ ho blank
          ∙ words-connective (tokens_operand o) (tokens c) _ _ rest or-IsToken
              (words-print_block c rest hc b))

-- `make_space` keeps a printed condition's tokens, and sets its brackets apart.
pub words-print : (c : Condition) → Spelled c → words (make_space (print c)) ≡ tokens c
words-print c h =
    rw (append-nil (make_space (print c)), append-nil (tokens c)) at
      (words-print_block c [] h tt ∙ ap (◌++◌ (tokens c)) words-nil)
