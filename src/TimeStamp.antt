-- ===== src/TimeStamp.antt =====
-- include/time/timestamp.h: the two texts of a local time. The clock and `std::localtime` are arguments:
-- a `Tm` is what `localtime` gives for the present time. `put_time` is written after the C++ standard, for
-- years of four digits.
pub mod Distinct
use multi_cctv_object_detect.Prelude.{ℕ, ◌+◌, List, [], ◌∷◌, ◌++◌, Bytes, decimal, fill_2}

-- The members of `std::tm` that are printed.
pub record Tm : Type 0 where
  pub tm_year : ℕ
  pub tm_mon : ℕ
  pub tm_mday : ℕ
  pub tm_hour : ℕ
  pub tm_min : ℕ
  pub tm_sec : ℕ

-- `%Y`, and `%m`, `%d`, `%H`, `%M`, `%S` of the number that they print.
abbrev pub year_text : Tm → Bytes
year_text t = decimal (t.tm_year + 1900)

abbrev pub two_digits : ℕ → Bytes
two_digits n = fill_2 (decimal n)

-- `std::put_time(&now_tm, "%Y_%m_%d__%H_%M_%S")`
unfoldable pub time_stamp : Tm → Bytes
time_stamp t =
    year_text t
    ++ b'_'
      ∷ (two_digits (t.tm_mon + 1)
          ++ b'_'
            ∷ (two_digits t.tm_mday
                ++ b'_'
                  ∷ b'_'
                  ∷ (two_digits t.tm_hour
                      ++ b'_' ∷ (two_digits t.tm_min ++ b'_' ∷ two_digits t.tm_sec))))

-- `std::put_time(&now_tm, "%Y/%m/%d %H:%M:%S")`
unfoldable time_stamp_str : Tm → Bytes
time_stamp_str t =
    year_text t
    ++ b'/'
      ∷ (two_digits (t.tm_mon + 1)
          ++ b'/'
            ∷ (two_digits t.tm_mday
                ++ b' '
                  ∷ (two_digits t.tm_hour
                      ++ b':' ∷ (two_digits t.tm_min ++ b':' ∷ two_digits t.tm_sec))))
