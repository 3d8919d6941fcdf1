-- ===== src/Prelude/Utf8.antt =====
-- The bytes of a text literal in UTF-8, as the compiler stores them.
use Prim.Native.Nat.{ℕ, ◌+◌, ◌/◌, ◌%◌}
use Prim.Native.Char.{code}
use Prim.Native.String.{String}
use mathlib.Core.List.{[], ◌∷◌, ◌++◌}
use multi_cctv_object_detect.Prelude.Tests.{ltb, if◌then◌else◌}
use multi_cctv_object_detect.Prelude.Text.{Bytes}

abbrev tail_byte : ℕ → ℕ
tail_byte n = 0x80 + n % 64

unfoldable utf8_char : ℕ → Bytes
utf8_char c =
    if ltb c 0x80
    then c ∷ []
    else if ltb c 0x800
    then (0xC0 + c / 64) ∷ tail_byte c ∷ []
    else if ltb c 0x10000
    then (0xE0 + c / 4096) ∷ tail_byte (c / 64) ∷ tail_byte c ∷ []
    else (0xF0 + c / 262144) ∷ tail_byte (c / 4096) ∷ tail_byte (c / 64) ∷ tail_byte c ∷ []

unfoldable pub utf8 : String → Bytes
unfolding utf8_char
utf8 String.[] = []
utf8 (String.◌∷◌ c s) = utf8_char (code c) ++ utf8 s
