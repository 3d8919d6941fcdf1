-- ===== src/Log.antt =====
-- include/config/logHandler.h: the log of the last lines, kept in memory and saved to a file.
-- The text of the time, which `put_time` makes, is an argument of `push`. A file is its text, or
-- `none` where it cannot be opened.
pub mod Bounded
pub mod SaveLoad
use multi_cctv_object_detect.Prelude.{
  ℕ, ℤ, pos, negsuc, ◌-◌, ◌^◌, Bool, List, [], ◌∷◌, ◌++◌, Option, none, some, Bytes, codes,
  to_string, length, take, replicate, ◌==ℤ◌, ltb, if◌then◌else◌,
}
use multi_cctv_object_detect.Handler.{split}

-- `Level::SIZE` counts the levels; `push` accepts it too.
pub data Level : Type 0 where
  info warning alarm error size : Level

pub record Log : Type 0 where
  pub filename : Bytes
  pub last_lines : List Bytes
  pub max_log_size : ℤ

-- `Log(fname, maxLSize)`
abbrev pub new_log : Bytes → ℤ → Log
new_log fname max = record { filename = fname; last_lines = []; max_log_size = max }

-- `std::setw(2)` with `std::setfill('0')` and `std::right`.
abbrev pad_left : Bytes → Bytes
pad_left s = replicate (2 - length s) b'0' ++ s

abbrev thread_text : ℤ → Bytes
thread_text thread_num =
    if thread_num ==ℤ pos 0
    then codes "   Main  " ++ codes " | "
    else if thread_num ==ℤ negsuc 0
    then []
    else codes "Thread " ++ (pad_left (to_string thread_num) ++ codes " | ")

abbrev level_text : Level → Bytes
level_text info = codes "   INFO ]"
level_text warning = codes "WARNING ]"
level_text error = codes "  ERROR ]"
level_text alarm = codes "  ALARM ]"
level_text size = []

-- `s.resize(n, ' ')`
abbrev pub resize : Bytes → ℕ → Bytes
resize s n = take n (s ++ replicate (n - length s) 32)

unfoldable pub line_prefix : Bytes → Level → ℤ → Bytes
line_prefix now level thread_num =
    resize (codes "[" ++ (now ++ (codes " | " ++ (thread_text thread_num ++ level_text level)))) 45
    ++ codes " | "

-- `maxLogSize` as the comparison with a size reads it: an `int` converted to `size_t`.
abbrev pub limit : Log → ℕ
limit l = elim l.max_log_size [ pos n ↦ n | negsuc n ↦ 2 ^ 64 - 1 - n ]

-- `pop_front` of a container that is not empty here.
abbrev pub pop_front {ℓ} : {A : Type ℓ} → List A → List A
pop_front [] = []
pop_front (x ∷ xs) = xs

-- `push_back`, then `if (size > maxLogSize) pop_front`.
unfoldable pub append_line : Log → Bytes → Log
append_line l line =
    let lines = l.last_lines ++ line ∷ [] in
    record l { last_lines = if ltb (limit l) (length lines) then pop_front lines else lines }

unfoldable pub push : Log → Bytes → Level → Bytes → ℤ → Log
unfolding append_line line_prefix
push l now level message thread_num = append_line l (line_prefix now level thread_num ++ message)

unfoldable pub append_lines : Log → List Bytes → Log
append_lines l [] = l
append_lines l (line ∷ lines) = append_lines (append_line l line) lines

unfoldable pub load : Log → Option Bytes → Log
unfolding append_lines
load l none = l
load l (some text) = append_lines l (split text [] 10)

-- `outFile << l << std::endl` for every line.
unfoldable pub text_of : List Bytes → Bytes
text_of [] = []
text_of (l ∷ ls) = l ++ 10 ∷ text_of ls

-- The text that `save` leaves in the file, which opening has emptied; `none` where it cannot be
-- opened. The log is unchanged.
unfoldable pub save : Log → Bool → Option Bytes
unfolding text_of
save l opens = if opens then some (text_of l.last_lines) else none
