-- ===== src/Legacy.antt =====
-- include/legacy/fileServer.h and src/legacy/WindowHandler.cpp, which the build leaves out: the file
-- server over the http library, whose answers are arguments, and the making of the window's picture.
use multi_cctv_object_detect.Prelude.{
  ℤ, pos, negsuc, Bool, true, false, [], ◌∷◌, Bytes, codes, utf8, ◌==ℤ◌, ◌||◌, if◌then◌else◌,
  Result, ok, ◌>>=◌,
}
use multi_cctv_object_detect.Log.{Log, push, info, error}
use multi_cctv_object_detect.IniHandler.{Settings, int_at}

-- `mounted` is what `set_mount_point` returns; `log_time` is the time that `push` reads.
unfoldable server_init : Bool → Bytes → Log → ℤ × Log
server_init mounted log_time l =
    if mounted
    then (pos 0, l)
    else (pos 1, push l log_time error (utf8 "웹 루트 폴더를 찾을 수 없습니다.") (negsuc 0))

-- `server_start` once `listen` has returned.
unfoldable server_start : Bytes → Log → ℤ × Log
server_start log_time l = (pos 0, push l log_time info (utf8 "파일 서버 시작") (negsuc 0))

unfoldable server_stop : Bytes → Log → ℤ × Log
server_stop log_time l = (pos 0, push l log_time info (utf8 "파일 서버 종료") (negsuc 0))

-- The size of `canvas`.
pub record Canvas : Type 0 where
  pub cols : ℤ
  pub rows : ℤ

abbrev is_nothing : Settings → Bool
is_nothing [] = true
is_nothing (s ∷ ini) = false

-- `paint`: what it returns, with the size of the black picture that it makes.
unfoldable paint : Settings → Canvas → Result (Bool × Canvas)
paint inifile canvas =
    if is_nothing inifile
    then ok (false, canvas)
    else if canvas.cols ==ℤ pos 0 || canvas.rows ==ℤ pos 0
    then ok (false, canvas)
    else int_at inifile (codes "window_height") >>= λ rows.
        int_at inifile (codes "window_width") >>= λ cols.
        ok (true, record { cols = cols; rows = rows })
