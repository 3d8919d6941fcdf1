-- ===== src/Handler.antt =====
-- src/config/Handler.cpp: the string helpers of the configuration readers. A helper that changes
-- its argument in place and returns 1 is a function to the new value; `postfix` may also fail.
pub mod Words
pub mod Split
use mathlib.Core.List.{reverse}
use multi_cctv_object_detect.Prelude.{
  ℕ, suc, Bool, true, false, ◌&&◌, ◌||◌, List, [], ◌∷◌, ◌++◌, Bytes, codes, is_space, is_digit,
  starts_digit, bytes_eq, words, ◌==◌, if◌then◌else◌, Result, ok, err, undefined, ◌>>=◌,
}

-- `str.rfind(prefix, 0) == 0`, behind the test of the lengths.
unfoldable pub start_with : Bytes → Bytes → Bool
start_with s [] = true
start_with [] (p ∷ ps) = false
start_with (c ∷ s) (p ∷ ps) = c == p && start_with s ps

-- At the end of the text `getline` finds no token where it reads no byte.
abbrev part_end : Bytes → List Bytes
part_end [] = []
part_end (c ∷ cur) = (c ∷ cur) ∷ []

-- The rest of `while (getline(ss, token, seperator))`, with the bytes of the current token first.
split_from : ℕ → Bytes → Bytes → List Bytes
split_from sep cur [] = part_end cur
split_from sep cur (c ∷ s) = elim (c == sep) [
  | true ↦ cur ∷ split_from sep [] s
  | false ↦ split_from sep (cur ++ c ∷ []) s
]

unfoldable pub split : Bytes → List Bytes → ℕ → List Bytes
unfolding split_from
split line tokens sep = tokens ++ split_from sep [] line

abbrev pub is_leading_char : ℕ → Bool
is_leading_char c = is_space c || c == b'['

abbrev pub is_trailing_char : ℕ → Bool
is_trailing_char c = is_space c || c == b']'

-- `erase(begin, find_if_not(begin, end, p))`
abbrev pub skip_while : (ℕ → Bool) → Bytes → Bytes
skip_while p [] = []
skip_while p (c ∷ s) = let rest = skip_while p s in if p c then rest else c ∷ s

unfoldable pub strip : Bytes → Bytes
strip s = reverse (skip_while is_trailing_char (reverse (skip_while is_leading_char s)))

-- The bytes of " []{}()" but the blank.
abbrev pub is_bracket : ℕ → Bool
is_bracket c = c == b'[' || c == b']' || c == b'{' || c == b'}' || c == b'(' || c == b')'

unfoldable pub make_space : Bytes → Bytes
make_space [] = []
make_space (c ∷ s) = (if is_bracket c then 32 ∷ c ∷ 32 ∷ [] else c ∷ []) ++ make_space s

abbrev pub Stack : Type 0
Stack = List Bytes

-- `while (!op.empty() && op.top() != open) { output << op.top() << " "; op.pop(); }`
unfoldable pub pop_until : Bytes → Stack → Bytes → Stack × Bytes
pop_until opener [] out = ([], out)
pop_until opener (top ∷ op) out = elim (bytes_eq top opener) [
  | true ↦ (top ∷ op, out)
  | false ↦ pop_until opener op (out ++ top ++ 32 ∷ [])
]

-- `op.pop()` on a stack that may be empty.
abbrev pub pop {ℓ} : {A : Type ℓ} → List A → Result (List A)
pop [] = err undefined
pop (x ∷ s) = ok s

-- One round of the loop over the tokens.
unfoldable pub postfix_token : Bytes → Stack × Bytes → Result (Stack × Bytes)
unfolding pop_until
postfix_token token (op, out) =
    if starts_digit token || bytes_eq token (codes "not")
    then ok (op, out ++ token ++ 32 ∷ [])
    else if bytes_eq token (codes "and")
        || bytes_eq token (codes "or")
        || bytes_eq token (codes "(")
        || bytes_eq token (codes "{")
        || bytes_eq token (codes "[")
    then ok (token ∷ op, out)
    else if bytes_eq token (codes ")")
    then (let (op', out') = pop_until (codes "(") op out in pop op' >>= λ below. ok (below, out'))
    else if bytes_eq token (codes "}")
    then ok (pop_until (codes "{") op out)
    else if bytes_eq token (codes "]")
    then ok (pop_until (codes "[") op out)
    else ok (op, out)

unfoldable pub postfix_loop : List Bytes → Stack × Bytes → Result (Stack × Bytes)
postfix_loop [] st = ok st
postfix_loop (token ∷ ts) st = postfix_token token st >>= postfix_loop ts

-- `while (!op.empty()) { output << op.top() << " "; op.pop(); }`
unfoldable pub pop_all : Stack → Bytes → Bytes
pop_all [] out = out
pop_all (top ∷ op) out = pop_all op (out ++ top ++ 32 ∷ [])

-- `if (!output_str.empty()) output_str.pop_back();`
abbrev pub pop_back {ℓ} : {A : Type ℓ} → List A → List A
pop_back [] = []
pop_back (c ∷ []) = []
pop_back (c ∷ d ∷ s) = c ∷ pop_back (d ∷ s)

unfoldable pub postfix : Bytes → Result Bytes
unfolding postfix_loop postfix_token pop_all words
postfix s = do (op, out) ← postfix_loop (words s) ([], []); ok (pop_back (pop_all op out))
