-- ===== src/Inference/Valid.antt =====
-- src/inference/inference.cpp: the objects that `inference` returns.
use multi_cctv_object_detect.Prelude.{
  ℕ, zero, suc, pos, ◌<◌, true, List, [], ◌∷◌, ◌≡◌, inl, inr, refl, ap, some, arith, length,
  length-append, get_elem?, All, All-append, Bool-cases, ok,
}
use multi_cctv_object_detect.Inference.{
  Floats, Rect, Row, BBoxInfo, Candidates, class_names, no_candidates, box_of, keep_row, keep_rows,
  object_at, collect, inference,
}

get_elem?-some {ℓ} :
    {A : Type ℓ} (xs : List A) (i : ℕ) → i < length xs → (x : A) × (get_elem? xs i ≡ some x)
get_elem?-some [] i h = absurd (omega (arith, h))
get_elem?-some (x ∷ xs) zero h = (x, refl)
get_elem?-some (x ∷ xs) (suc i) h = get_elem?-some xs i (omega (arith, h))

get_elem?-All {ℓ κ} :
    {A : Type ℓ} (P : A → Type κ) (xs : List A) (i : ℕ)
    → All P xs
    → i < length xs
    → (x : A) × (get_elem? xs i ≡ some x) × P x
get_elem?-All P [] i _ h = absurd (omega (arith, h))
get_elem?-All P (x ∷ xs) zero (p, _) h = (x, refl, p)
get_elem?-All P (x ∷ xs) (suc i) (_, ps) h = get_elem?-All P xs i ps (omega (arith, h))

module _ {F : Type 0} (ops : Floats F) where
  -- The vectors are as long as each other, the classes have names, the confidences are enough.
  pub record IsValid (c : Candidates F) : Type 0 where
    same_ids : length c.class_ids ≡ length c.boxes
    same_confidences : length c.confidences ≡ length c.boxes
    named : All (λ n. n < 13) c.class_ids
    confident : All (λ s. ops.greater s ops.confidence_threshold ≡ true) c.confidences

  -- An object: its class has the name that it carries, and its confidence is over the threshold.
  abbrev pub IsObject : BBoxInfo F → Type 0
  IsObject info =
      ((n : ℕ) × (info.class_id ≡ pos n) × (get_elem? class_names n ≡ some info.class_name))
      × (ops.greater info.confidence ops.confidence_threshold ≡ true)

  keep_row-IsValid :
      (cols rows : ℕ) (max_loc : List F → F × ℕ) (r : Row F) (c : Candidates F)
      → (max_loc r.scores).1 < 13
      → IsValid c
      → IsValid (keep_row ops cols rows max_loc r c)
  unfolding keep_row
  keep_row-IsValid cols rows max_loc r c place v =
      let score = (max_loc r.scores).0 in
      elim (Bool-cases (ops.greater score ops.confidence_threshold)) [
        | inl enough ↦ rw enough (record {
          same_ids = omega (
            arith,
            length-append c.class_ids ((max_loc r.scores).1 ∷ []),
            length-append c.boxes (box_of ops cols rows r ∷ []),
            v.same_ids,
          );
          same_confidences = omega (
            arith,
            length-append c.confidences (score ∷ []),
            length-append c.boxes (box_of ops cols rows r ∷ []),
            v.same_confidences,
          );
          named = All-append _ c.class_ids _ v.named (place, tt);
          confident = All-append _ c.confidences _ v.confident (enough, tt);
        })
        | inr low ↦ rw low v
      ]

  keep_rows-IsValid :
      (cols rows : ℕ) (max_loc : List F → F × ℕ) (output : List (Row F)) (c : Candidates F)
      → ((r : Row F) → (max_loc r.scores).1 < 13)
      → IsValid c
      → IsValid (keep_rows ops cols rows max_loc output c)
  unfolding keep_rows
  keep_rows-IsValid cols rows max_loc [] c place v = v
  keep_rows-IsValid cols rows max_loc (r ∷ output) c place v =
      keep_rows-IsValid cols rows max_loc output _ place
        (keep_row-IsValid cols rows max_loc r c (place r) v)

  object_at-IsObject :
      (c : Candidates F) (idx : ℕ)
      → IsValid c
      → idx < length c.boxes
      → (info : BBoxInfo F) × (object_at c idx ≡ ok info) × IsObject info
  unfolding object_at
  object_at-IsObject c idx v h =
      let (box, e₁) = get_elem?-some c.boxes idx h in
      let (n, e₂, low) = get_elem?-All _ c.class_ids idx v.named (omega (arith, v.same_ids, h)) in
      let (name, e₃) = get_elem?-some class_names n low in
      let (s, e₄, enough) =
        get_elem?-All _ c.confidences idx v.confident (omega (arith, v.same_confidences, h)) in
      (
        record { box = box; class_name = name; class_id = pos n; confidence = s },
        simp (e₁, e₂, e₃, e₄),
        ((n, refl, e₃), enough),
      )

  collect-All :
      (c : Candidates F) (indices : List ℕ)
      → IsValid c
      → All (λ i. i < length c.boxes) indices
      → (objects : List (BBoxInfo F)) × (collect c indices ≡ ok objects)
        × (length objects ≡ length indices)
        × All IsObject objects
  unfolding collect
  collect-All c [] v h = ([], refl, refl, tt)
  collect-All c (idx ∷ indices) v (low, h) =
      let (info, e, o) = object_at-IsObject c idx v low in
      let (objects, es, same, os) = collect-All c indices v h in
      (info ∷ objects, rw (e, es), ap suc same, (o, os))

-- The indices that `NMSBoxes` keeps of the rows over the threshold.
abbrev pub kept_indices :
    {F : Type 0}
    → Floats F
    → (List F → F × ℕ)
    → (List Rect → List F → List ℕ)
    → ℕ
    → ℕ
    → List (Row F)
    → List ℕ
kept_indices ops max_loc nms cols rows output =
    let c = keep_rows ops cols rows max_loc output no_candidates in nms c.boxes c.confidences

-- Where `minMaxLoc` gives a place among the scores of the 13 classes, and `NMSBoxes` indices of the
-- boxes, `inference` reads no vector out of range: it returns one object for each index that
-- `NMSBoxes` keeps, each with the
-- name of its class and a confidence over the threshold.
pub inference-IsObject :
    {F : Type 0} (ops : Floats F) (max_loc : List F → F × ℕ) (nms : List Rect → List F → List ℕ)
    (cols rows : ℕ) (output : List (Row F))
    → ((r : Row F) → (max_loc r.scores).1 < 13)
    → ((boxes : List Rect) (confidences : List F)
        → All (λ i. i < length boxes) (nms boxes confidences))
    → (objects : List (BBoxInfo F)) × (inference ops max_loc nms cols rows output ≡ ok objects)
      × (length objects ≡ length (kept_indices ops max_loc nms cols rows output))
      × All (IsObject ops) objects
unfolding inference
inference-IsObject ops max_loc nms cols rows output place inside =
    let c = keep_rows ops cols rows max_loc output no_candidates in
    let v =
      keep_rows-IsValid ops cols rows max_loc output no_candidates place
        (record { same_ids = refl; same_confidences = refl; named = tt; confident = tt }) in
    let (objects, e, same, o) =
      collect-All ops c (nms c.boxes c.confidences) v (inside c.boxes c.confidences) in
    (objects, e, same, o)
