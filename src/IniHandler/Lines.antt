-- ===== src/IniHandler/Lines.antt =====
-- src/config/iniHandler.cpp: the lines of an ini file and what a round of the loop of `read_ini` makes of
-- each.
use mathlib.Core.List.{reverse, reverse-append}
use multi_cctv_object_detect.Prelude.{
  ℕ, Bool, true, false, ◌||◌, none, [], ◌∷◌, ◌++◌, ◌≡◌, refl, some, Bytes, All, All-append, All-map,
  arith, ◌==◌, ok,
}
use multi_cctv_object_detect.Handler.{is_leading_char, is_trailing_char, start_with}
use multi_cctv_object_detect.Handler.Split.{
  Lacks, Stops, Stops-append, Trim, strip-Trim, strip-blank_after, strip-blank_before, split-sep,
  split-last,
}
use multi_cctv_object_detect.IniHandler.{
  Settings, put_setting, has_byte, read_setting, read_ini_line,
}

-- A line of a setting, with a colon or an equals sign, or any other line.
pub data Line : Type 0 where
  setting : Bool → Bytes → Bytes → Line
  remark : Bytes → Line

abbrev separator : Bool → ℕ
separator true = b':'
separator false = b'='

abbrev pub line_text : Line → Bytes
line_text (setting colon key value) = (key ++ 32 ∷ []) ++ separator colon ∷ 32 ∷ value
line_text (remark text) = text

abbrev is_mark : ℕ → Bool
is_mark c = c == b':' || c == b'=' || c == 10

-- A key or a value: no blank or bracket at its ends, no separator and no line feed inside.
pub record IsPart (s : Bytes) : Type 0 where
  pub trim : Trim s
  pub marks : All (λ c. is_mark c ≡ false) s

abbrev pub starts_remark : ℕ → Bool
starts_remark c = c == b'/' || c == b'#' || c == b'['

-- An empty line, a comment or a section.
abbrev Skipped : Bytes → Type 0
Skipped [] = Unit
Skipped (c ∷ s) = starts_remark c ≡ true

abbrev pub IsLine : Line → Type 0
IsLine (setting colon key value) = IsPart key × Stops starts_remark key × IsPart value
IsLine (remark text) = Skipped text × Lacks 10 text

module _ (s : Bytes) (h : IsPart s) where
  part-colon : Lacks b':' s
  part-colon = All-map _ (λ c. (c == b':') ≡ false) s (λ c e. ground arith) h.marks

  part-equals : Lacks b'=' s
  part-equals = All-map _ (λ c. (c == b'=') ≡ false) s (λ c e. ground arith) h.marks

  pub part-feed : Lacks 10 s
  part-feed = All-map _ (λ c. (c == 10) ≡ false) s (λ c e. ground arith) h.marks

  part-separator : (colon : Bool) → Lacks (separator colon) s
  part-separator true = part-colon
  part-separator false = part-equals

blank_lem : (colon : Bool) → (32 == separator colon) ≡ false
blank_lem true = refl
blank_lem false = refl

separator_lem : (colon : Bool) → (separator colon == 10) ≡ false
separator_lem true = refl
separator_lem false = refl

pub line-Lacks : (l : Line) → IsLine l → Lacks 10 (line_text l)
line-Lacks (setting colon key value) (hk, _, hv) =
    All-append _ (key ++ 32 ∷ []) _ (All-append _ key (32 ∷ []) (part-feed key hk) (refl, tt))
      (separator_lem colon, (refl, part-feed value hv))
line-Lacks (remark text) (_, h) = h

append-Trim :
    (s t : Bytes) → Stops is_leading_char s → Stops is_trailing_char (reverse t) → Trim (s ++ t)
append-Trim s t h k = record {
  start = Stops-append is_leading_char s t h;
  end = rw (reverse-append s t) (Stops-append is_trailing_char (reverse t) (reverse s) k);
}

line-Trim :
    (colon : Bool) (key value : Bytes)
    → IsPart key
    → IsPart value
    → Trim (line_text (setting colon key value))
line-Trim colon key value hk hv =
    append-Trim (key ++ 32 ∷ []) (separator colon ∷ 32 ∷ value)
      (Stops-append is_leading_char key (32 ∷ []) hk.trim.start)
      (rw (reverse-append (separator colon ∷ 32 ∷ []) value)
        (Stops-append is_trailing_char (reverse value) _ hv.trim.end))

has_byte-Lacks : (c : ℕ) (s : Bytes) → Lacks c s → has_byte c s ≡ false
has_byte-Lacks c [] _ = refl
has_byte-Lacks c (b ∷ s) (h, hs) = rw h (has_byte-Lacks c s hs)

has_byte-here : (c : ℕ) (s t : Bytes) → has_byte c (s ++ c ∷ t) ≡ true
has_byte-here c [] t = ground arith
has_byte-here c (b ∷ s) t = ground (arith, has_byte-here c s t)

read_setting-line :
    (colon : Bool) (key value : Bytes) (ini : Settings)
    → IsPart key
    → IsPart value
    → read_setting (line_text (setting colon key value)) (separator colon) ini
      ≡ ok (some (put_setting ini key value))
read_setting-line colon key value ini hk hv =
    let sep = separator colon in
    rw
      (
        split-sep sep (key ++ 32 ∷ []) (32 ∷ value)
            (All-append _ key (32 ∷ []) (part-separator key hk colon) (blank_lem colon, tt)),
        split-last sep (32 ∷ value) (cc) (blank_lem colon, part-separator value hv colon),
        strip-blank_after key hk.trim,
        strip-blank_before value hv.trim,
      )
      refl

no_remark :
    (c : ℕ)
    → starts_remark c ≡ false
    → ((c == b'/') ≡ false) × ((c == b'#') ≡ false) × ((c == b'[') ≡ false)
no_remark c h = ground arith

-- What a line leaves of the settings before it.
abbrev pub after_line : Line → Settings → Settings
after_line (setting colon key value) ini = put_setting ini key value
after_line (remark text) ini = ini

read_ini_line-Skipped :
    (text : Bytes) (ini : Settings) → Skipped text → read_ini_line text ini ≡ ok (some ini)
unfolding read_ini_line start_with
read_ini_line-Skipped [] ini h = refl
read_ini_line-Skipped (c ∷ s) ini h = ground arith

pub read_ini_line-line :
    (l : Line) (ini : Settings)
    → IsLine l
    → read_ini_line (line_text l) ini ≡ ok (some (after_line l ini))
unfolding read_ini_line start_with
read_ini_line-line (setting colon [] value) ini (_, h, _) = elim h [ ]
read_ini_line-line (setting true (c ∷ key) value) ini (hk, h, hv) =
    let (slash, hash, bracket) = no_remark c h in
    rw
      (
        slash,
        hash,
        bracket,
        strip-Trim _ (line-Trim true (c ∷ key) value hk hv),
        has_byte-here b':' (c ∷ (key ++ 32 ∷ [])) (32 ∷ value),
        read_setting-line true (c ∷ key) value ini hk hv,
      )
      refl
read_ini_line-line (setting false (c ∷ key) value) ini (hk, h, hv) =
    let (slash, hash, bracket) = no_remark c h in
    rw
      (
        slash,
        hash,
        bracket,
        strip-Trim _ (line-Trim false (c ∷ key) value hk hv),
        has_byte-Lacks b':' (line_text (setting false (c ∷ key) value)) (
            All-append _ (c ∷ (key ++ 32 ∷ [])) _
              (All-append _ (c ∷ key) (32 ∷ []) (part-colon (c ∷ key) hk) (refl, tt))
              (refl, (refl, part-colon value hv))),
        has_byte-here b'=' (c ∷ (key ++ 32 ∷ [])) (32 ∷ value),
        read_setting-line false (c ∷ key) value ini hk hv,
      )
      refl
read_ini_line-line (remark text) ini (h, _) = read_ini_line-Skipped text ini h

-- A line with no separator ends the reading.
pub read_ini_line-none :
    (bad : Bytes) (ini : Settings)
    → IsPart bad
    → Stops starts_remark bad
    → read_ini_line bad ini ≡ ok none
unfolding read_ini_line start_with
read_ini_line-none [] ini _ h = elim h [ ]
read_ini_line-none (c ∷ bad) ini part h =
    let (slash, hash, bracket) = no_remark c h in
    rw
      (
        slash,
        hash,
        bracket,
        strip-Trim (c ∷ bad) part.trim,
        has_byte-Lacks b':' (c ∷ bad) (part-colon (c ∷ bad) part),
        has_byte-Lacks b'=' (c ∷ bad) (part-equals (c ∷ bad) part),
      )
      refl
