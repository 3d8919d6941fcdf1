-- ===== src/Log/SaveLoad.antt =====
-- include/config/logHandler.h: a saved log, loaded into a new one.
use multi_cctv_object_detect.Prelude.{ℕ, ℤ, true, List, [], ◌∷◌, ◌≡◌, refl, ap, ◌∙◌, Bytes, All}
use multi_cctv_object_detect.Handler.{split}
use multi_cctv_object_detect.Handler.Split.{Lacks, split-sep}
use multi_cctv_object_detect.Log.{Log, new_log, limit, text_of, save, load}
use multi_cctv_object_detect.Log.Bounded.{
  last_n, append_lines-Shows, append_lines-limit, new_log-Shows,
}

split-text_of : (ls : List Bytes) → All (Lacks 10) ls → split (text_of ls) [] 10 ≡ ls
unfolding text_of split
split-text_of [] _ = refl
split-text_of (l ∷ ls) (h, hs) = split-sep 10 l (text_of ls) h ∙ ap (◌∷◌ l) (split-text_of ls hs)

-- Where no line holds a line feed, the file that `save` writes, loaded into a new log, gives back the
-- last lines, as many as the new log may hold.
pub load-save :
    (l : Log) (fname : Bytes) (max : ℤ)
    → All (Lacks 10) l.last_lines
    → (load (new_log fname max) (save l true)).last_lines
      ≡ last_n (limit (new_log fname max)) l.last_lines
unfolding load save
load-save l fname max h = rw (split-text_of l.last_lines h) (
    append_lines-Shows l.last_lines (new_log fname max) [] (new_log-Shows fname max)
    ∙ ap (λ (n : ℕ). last_n n l.last_lines) (append_lines-limit l.last_lines (new_log fname max)))
