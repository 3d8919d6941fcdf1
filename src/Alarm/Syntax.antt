-- ===== src/Alarm/Syntax.antt =====
-- The conditions that resource/alarm.conf describes, as a grammar, with their text and the meaning
-- that the file's comments give them. A class number is any spelling of it in digits.
--   operand ::= class | not operand | ( condition )
--   condition ::= operand | operand and condition | operand or condition
use multi_cctv_object_detect.Prelude.{
  ℤ, pos, Bool, true, false, not, ◌&&◌, ◌||◌, ◌≡◌, ◌<◌, List, [], ◌∷◌, ◌++◌, Bytes, codes, is_digit,
  digits_value, All, ◌≢◌, refl, if◌then◌else◌,
}
use multi_cctv_object_detect.Alarm.{contains}

mutual
  pub data Operand : Type 0 where
    cls : Bytes → Operand
    negated : Operand → Operand
    group : Condition → Operand

  pub data Condition : Type 0 where
    single : Operand → Condition
    both : Operand → Condition → Condition
    either : Operand → Condition → Condition

unfoldable mutual
  pub print_operand : Operand → Bytes
  print_operand (cls w) = w
  print_operand (negated o) = codes "not " ++ print_operand o
  print_operand (group c) = b'(' ∷ (print c ++ b')' ∷ [])

  pub print : Condition → Bytes
  print (single o) = print_operand o
  print (both o c) = print_operand o ++ (codes " and " ++ print c)
  print (either o c) = print_operand o ++ (codes " or " ++ print c)

-- The meaning of a condition for the classes of a frame.
unfoldable mutual
  holds_operand : List ℤ → Operand → Bool
  holds_operand classes (cls w) = contains classes (pos (digits_value 0 w))
  holds_operand classes (negated o) = not (holds_operand classes o)
  holds_operand classes (group c) = holds classes c

  pub holds : List ℤ → Condition → Bool
  holds classes (single o) = holds_operand classes o
  holds classes (both o c) = holds_operand classes o && holds classes c
  holds classes (either o c) = holds_operand classes o || holds classes c

-- A class number: digits that spell an `int`.
abbrev pub IsClass : Bytes → Type 0
IsClass w = All (λ c. is_digit c ≡ true) w × (w ≢ []) × (digits_value 0 w < 0x8000_0000)

-- Every class of the condition is spelled as a class number.
unfoldable mutual
  pub SpelledOperand : Operand → Type 0
  SpelledOperand (cls w) = IsClass w
  SpelledOperand (negated o) = SpelledOperand o
  SpelledOperand (group c) = Spelled c

  pub Spelled : Condition → Type 0
  Spelled (single o) = SpelledOperand o
  Spelled (both o c) = SpelledOperand o × Spelled c
  Spelled (either o c) = SpelledOperand o × Spelled c

-- `not` stands in front of class numbers only, as in every example of resource/alarm.conf.
unfoldable mutual
  pub PlainOperand : Operand → Type 0
  PlainOperand (cls w) = Unit
  PlainOperand (negated (cls w)) = Unit
  PlainOperand (negated (negated o)) = ⊥
  PlainOperand (negated (group c)) = ⊥
  PlainOperand (group c) = Plain c

  pub Plain : Condition → Type 0
  Plain (single o) = PlainOperand o
  Plain (both o c) = PlainOperand o × Plain c
  Plain (either o c) = PlainOperand o × Plain c

-- What the program makes of a condition: `negate` is the pending `isNot`, which the next class
-- number uses up, wherever it stands.
unfoldable mutual
  pub reads_operand : List ℤ → Bool → Operand → Bool
  reads_operand classes negate (cls w) =
      let t = contains classes (pos (digits_value 0 w)) in if negate then not t else t
  reads_operand classes negate (negated o) = reads_operand classes true o
  reads_operand classes negate (group c) = reads classes negate c

  pub reads : List ℤ → Bool → Condition → Bool
  reads classes negate (single o) = reads_operand classes negate o
  reads classes negate (both o c) = reads_operand classes negate o && reads classes false c
  reads classes negate (either o c) = reads_operand classes negate o || reads classes false c

mutual
  unfolding reads_operand holds_operand PlainOperand

  reads_operand-holds :
      (classes : List ℤ) (o : Operand)
      → PlainOperand o
      → reads_operand classes false o ≡ holds_operand classes o
  reads_operand-holds classes (cls w) h = refl
  reads_operand-holds classes (negated (cls w)) h = refl
  reads_operand-holds classes (negated (negated o)) h = elim h [ ]
  reads_operand-holds classes (negated (group c)) h = elim h [ ]
  reads_operand-holds classes (group c) h = reads-holds_block classes c h

  reads-holds_block :
      (classes : List ℤ) (c : Condition) → Plain c → reads classes false c ≡ holds classes c
  reads-holds_block classes (single o) h = reads_operand-holds classes o h
  reads-holds_block classes (both o c) (ho, hc) =
      rw (reads_operand-holds classes o ho, reads-holds_block classes c hc)
  reads-holds_block classes (either o c) (ho, hc) =
      rw (reads_operand-holds classes o ho, reads-holds_block classes c hc)

-- On a plain condition the program's reading is the meaning.
pub reads-holds :
    (classes : List ℤ) (c : Condition) → Plain c → reads classes false c ≡ holds classes c
reads-holds classes c h = reads-holds_block classes c h
