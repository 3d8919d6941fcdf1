-- ===== src/Handler/Words.antt =====
-- How `stream >> token` reads the text that `make_space` and `postfix` write.
use mathlib.Core.List.{cons-ne-nil}
use multi_cctv_object_detect.Prelude.{
  ℕ, ◌≡◌, refl, sym, ap, ◌∙◌, ◌≢◌, true, false, List, [], ◌∷◌, ◌++◌, append-nil, append_assoc,
  Bytes, is_space, words, words_from, flush, All,
}
use multi_cctv_object_detect.Handler.{make_space, pop_back, pop_all, Stack}

abbrev NoSpace : Bytes → Type 0
NoSpace = All (λ c. is_space c ≡ false)

-- A token: at least one byte, and no blank.
abbrev pub IsToken : Bytes → Type 0
IsToken w = (w ≢ []) × NoSpace w

-- What ends a token: the end of the text, or a blank.
abbrev pub Breaks : Bytes → Type 0
Breaks [] = Unit
Breaks (c ∷ s) = is_space c ≡ true

words_from-append :
    (cur w rest : Bytes) → NoSpace w → words_from cur (w ++ rest) ≡ words_from (cur ++ w) rest
unfolding words_from
words_from-append cur [] rest _ = rw append-nil
words_from-append cur (c ∷ w) rest (h, hs) =
    rw (h, words_from)
      (words_from-append (cur ++ c ∷ []) w rest hs
        ∙ ap (λ (t : Bytes). words_from t rest) (append_assoc cur (c ∷ []) w))

words_from-break : (cur rest : Bytes) → Breaks rest → words_from cur rest ≡ flush cur (words rest)
unfolding words_from words
words_from-break cur [] _ = refl
words_from-break cur (c ∷ s) h = rw (h, words_from)

flush-ne : (w : Bytes) (ws : List Bytes) → w ≢ [] → flush w ws ≡ w ∷ ws
flush-ne [] ws h = absurd (h refl)
flush-ne (c ∷ w) ws h = refl

pub words-nil : words [] ≡ []
unfolding words words_from
words-nil = refl

is_space-blank : is_space 32 ≡ true
unfolding is_space
is_space-blank = refl

-- A token is read whole, up to the blank behind it.
pub words-token : (w rest : Bytes) → IsToken w → Breaks rest → words (w ++ rest) ≡ w ∷ words rest
unfolding words
words-token w rest (ne, ns) b =
    words_from-append [] w rest ns ∙ (words_from-break w rest b ∙ flush-ne w (words rest) ne)

pub words-space : (c : ℕ) (rest : Bytes) → is_space c ≡ true → words (c ∷ rest) ≡ words rest
unfolding words words_from
words-space c rest h = rw (h, words_from)

-- The tokens, each with a blank behind it, as `output << token << " "` writes them.
abbrev pub spaced : List Bytes → Bytes
spaced [] = []
spaced (w ∷ ws) = w ++ (32 ∷ spaced ws)

pub spaced-append : (vs ws : List Bytes) → spaced (vs ++ ws) ≡ spaced vs ++ spaced ws
spaced-append [] ws = refl
spaced-append (v ∷ vs) ws =
    rw (spaced-append vs ws) (sym (append_assoc v (32 ∷ spaced vs) (spaced ws)))

pub pop_all-spaced : (op : Stack) (out : Bytes) → pop_all op out ≡ out ++ spaced op
unfolding pop_all
pop_all-spaced [] out = sym (append-nil out)
pop_all-spaced (top ∷ op) out = rw (pop_all-spaced op (out ++ top ++ 32 ∷ [])) (simp append_assoc)

pop_back-append : (s : Bytes) (c : ℕ) → pop_back (s ++ c ∷ []) ≡ s
pop_back-append [] c = refl
pop_back-append (d ∷ []) c = refl
pop_back-append (d ∷ e ∷ s) c = ap (◌∷◌ d) (pop_back-append (e ∷ s) c)

pop_back-cons :
    (s : Bytes) (c : ℕ) (t : Bytes) → t ≢ [] → pop_back (s ++ c ∷ t) ≡ s ++ c ∷ pop_back t
pop_back-cons [] c [] h = absurd (h refl)
pop_back-cons [] c (d ∷ t) h = refl
pop_back-cons (e ∷ []) c t h = ap (◌∷◌ e) (pop_back-cons [] c t h)
pop_back-cons (e ∷ f ∷ s) c t h = ap (◌∷◌ e) (pop_back-cons (f ∷ s) c t h)

append-ne-nil : (v rest : Bytes) → v ≢ [] → v ++ rest ≢ []
append-ne-nil [] rest h = absurd (h refl)
append-ne-nil (c ∷ v) rest h = cons-ne-nil c (v ++ rest)

-- The blank that `pop_back` takes off the end changes no token.
pub words-pop_back-spaced : (ws : List Bytes) → All IsToken ws → words (pop_back (spaced ws)) ≡ ws
words-pop_back-spaced [] _ = unfold words words_from in refl
words-pop_back-spaced (w ∷ []) (h, _) =
    rw (pop_back-append w 32) (rw append-nil at (words-token w [] h tt ∙ ap (◌∷◌ w) words-nil))
words-pop_back-spaced (w ∷ v ∷ ws) (h, hs) =
    rw (pop_back-cons w 32 (v ++ (32 ∷ spaced ws)) (append-ne-nil v _ hs.0.0)) (
      words-token w _ h is_space-blank
      ∙ ap (◌∷◌ w) (words-space 32 _ is_space-blank ∙ words-pop_back-spaced (v ∷ ws) hs))

pub make_space-append : (s t : Bytes) → make_space (s ++ t) ≡ make_space s ++ make_space t
unfolding make_space
make_space-append [] t = refl
make_space-append (c ∷ s) t =
    rw (make_space-append s t) (sym (append_assoc _ (make_space s) (make_space t)))
