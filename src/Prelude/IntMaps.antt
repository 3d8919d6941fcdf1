-- ===== src/Prelude/IntMaps.antt =====
-- `std::unordered_map<int, V>` as an association list: `find`, `m[k] = v` and `erase`.
use mathlib.Core.Path.{◌≡◌, refl}
use mathlib.Core.Option.{Option, none, some}
use mathlib.Core.List.{List, [], ◌∷◌}
use native.Mathlib.Omega.{arith}
use multi_cctv_object_detect.Prelude.Tests.{if◌then◌else◌}
use multi_cctv_object_detect.Prelude.Int.{ℤ, ◌==ℤ◌, ==ℤ_iff}

module _ {ℓ} {V : Type ℓ} where
  unfoldable pub find_key : List (ℤ × V) → ℤ → Option V
  find_key [] k = none
  find_key ((j, v) ∷ m) k = if j ==ℤ k then some v else find_key m k

  unfoldable pub put_key : List (ℤ × V) → ℤ → V → List (ℤ × V)
  put_key [] k v = (k, v) ∷ []
  put_key ((j, w) ∷ m) k v = if j ==ℤ k then (k, v) ∷ m else (j, w) ∷ put_key m k v

  unfoldable pub erase_key : List (ℤ × V) → ℤ → List (ℤ × V)
  erase_key [] k = []
  erase_key ((j, w) ∷ m) k = if j ==ℤ k then erase_key m k else (j, w) ∷ erase_key m k

  pub find-put :
      (m : List (ℤ × V)) (k : ℤ) (v : V) (j : ℤ)
      → find_key (put_key m k v) j ≡ (if k ==ℤ j then some v else find_key m j)
  unfolding find_key put_key
  find-put [] k v j = refl
  find-put ((i, w) ∷ m) k v j =
      ground (arith, ==ℤ_iff k j, ==ℤ_iff i k, ==ℤ_iff i j, find-put m k v j)

  pub find-erase :
      (m : List (ℤ × V)) (k j : ℤ)
      → find_key (erase_key m k) j ≡ (if k ==ℤ j then none else find_key m j)
  unfolding find_key erase_key
  find-erase [] k j = ground arith
  find-erase ((i, w) ∷ m) k j =
      ground (arith, ==ℤ_iff k j, ==ℤ_iff i k, ==ℤ_iff i j, find-erase m k j)
