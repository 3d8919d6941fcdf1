-- ===== src/Prelude/Text.antt =====
-- `std::string` as a list of bytes, and what the program uses of the standard library on it:
-- `isspace`, `isdigit`, `operator==`, `stream >> token`, `std::stoi`.
use Prim.Native.Nat.{ℕ, zero, suc, ◌+◌, ◌-◌, ◌*◌}
use Prim.Native.Char.{code}
use Prim.Native.String.{String}
use mathlib.Core.Path.{◌≡◌}
use mathlib.Core.Logic.{◌↔◌}
use mathlib.Core.Bool.{Bool, true, false, ◌&&◌, ◌||◌}
use mathlib.Core.List.{List, [], ◌∷◌, ◌++◌}
use native.Mathlib.Omega.{arith}
use multi_cctv_object_detect.Prelude.Tests.{ltb, leb, ◌==◌, if◌then◌else◌}
use multi_cctv_object_detect.Prelude.Int.{ℤ, pos, negsuc}
use multi_cctv_object_detect.Prelude.Faults.{Result, ok, err, invalid_argument, out_of_range}

abbrev pub Bytes : Type 0
Bytes = List ℕ

-- The bytes of an ASCII literal.
abbrev pub codes : String → Bytes
codes String.[] = []
codes (String.◌∷◌ c s) = code c ∷ codes s

-- `std::isspace` in the C locale: the blank, and \t \n \v \f \r.
unfoldable pub is_space : ℕ → Bool
is_space c = c == 32 || (leb 9 c && leb c 13)

abbrev pub is_digit : ℕ → Bool
is_digit c = leb b'0' c && leb c b'9'

abbrev pub bytes_eq : Bytes → Bytes → Bool
bytes_eq [] [] = true
bytes_eq [] (b ∷ t) = false
bytes_eq (a ∷ s) [] = false
bytes_eq (a ∷ s) (b ∷ t) = a == b && bytes_eq s t

pub bytes_eq_iff : (s t : Bytes) → (bytes_eq s t ≡ true) ↔ (s ≡ t)
bytes_eq_iff [] [] = ground arith
bytes_eq_iff [] (b ∷ t) = ground arith
bytes_eq_iff (a ∷ s) [] = ground arith
bytes_eq_iff (a ∷ s) (b ∷ t) = ground (arith, bytes_eq_iff s t)

abbrev pub flush : Bytes → List Bytes → List Bytes
flush [] ws = ws
flush (c ∷ w) ws = (c ∷ w) ∷ ws

-- The rest of `while (ss >> token)`, with the bytes of the current token before it.
unfoldable pub words_from : Bytes → Bytes → List Bytes
words_from cur [] = flush cur []
words_from cur (c ∷ s) = elim (is_space c) [
  | true ↦ flush cur (words_from [] s)
  | false ↦ words_from (cur ++ c ∷ []) s
]

-- All tokens that `ss >> token` reads from a text.
unfoldable pub words : Bytes → List Bytes
unfolding words_from
words s = words_from [] s

-- The number that leading digits spell behind `n`, and whether there are any.
abbrev pub digits_value : ℕ → Bytes → ℕ
digits_value n [] = n
digits_value n (c ∷ s) =
    let rest = digits_value (n * 10 + (c - b'0')) s in if is_digit c then rest else n

abbrev pub starts_digit : Bytes → Bool
starts_digit [] = false
starts_digit (c ∷ s) = is_digit c

-- A number with its sign, in the range of `int`.
abbrev int_of : Bool → ℕ → Result ℤ
int_of false n = if ltb n 0x8000_0000 then ok (pos n) else err out_of_range
int_of true zero = ok (pos 0)
int_of true (suc n) = if ltb n 0x8000_0000 then ok (negsuc n) else err out_of_range

abbrev signed : Bool → Bytes → Result ℤ
signed minus s = if starts_digit s then int_of minus (digits_value 0 s) else err invalid_argument

-- `std::stoi`: leading blanks, a sign, digits; what follows the digits is not read.
unfoldable pub stoi : Bytes → Result ℤ
stoi [] = err invalid_argument
stoi (c ∷ s) =
    let skipped = stoi s in
    if is_space c
    then skipped
    else if c == b'-'
    then signed true s
    else if c == b'+'
    then signed false s
    else signed false (c ∷ s)
