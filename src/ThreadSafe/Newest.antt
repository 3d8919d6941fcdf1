-- ===== src/ThreadSafe/Newest.antt =====
-- include/thread_safe/thread_safe_stack.h: sequences of pushes on a bounded stack.
use multi_cctv_object_detect.Prelude.{
  ℕ, zero, suc, pos, ◌≤◌, List, [], ◌∷◌, ◌≡◌, inl, inr, refl, sym, ap, ◌∙◌, arith, length, take,
  length-take, ltb, Bool-cases,
}
use multi_cctv_object_detect.ThreadSafe.{ThreadSafeStack, new_stack, push_stack, pop_back}

module _ {ℓ} {A : Type ℓ} where
  abbrev pub push_all : ThreadSafeStack A → List A → ThreadSafeStack A
  push_all s [] = s
  push_all s (item ∷ items) = push_stack (push_all s items) item

  pop_back-take : (n : ℕ) (xs : List A) → length xs ≡ suc n → pop_back xs ≡ take n xs
  pop_back-take zero [] h = refl
  pop_back-take zero (x ∷ []) h = refl
  pop_back-take zero (x ∷ y ∷ xs) h = absurd (omega (arith, h))
  pop_back-take (suc n) [] h = refl
  pop_back-take (suc n) (x ∷ []) h = absurd (omega (arith, h))
  pop_back-take (suc n) (x ∷ y ∷ xs) h =
      ap (λ (t : List A). x ∷ t) (pop_back-take n (y ∷ xs) (omega (arith, h)))

  take-short : (n : ℕ) (xs : List A) → length xs ≤ n → take n xs ≡ xs
  take-short zero [] h = refl
  take-short zero (x ∷ xs) h = absurd (omega (arith, h))
  take-short (suc n) [] h = refl
  take-short (suc n) (x ∷ xs) h = ap (λ (t : List A). x ∷ t) (take-short n xs (omega (arith, h)))

  take-take : (n : ℕ) (xs : List A) → take n (take (suc n) xs) ≡ take n xs
  take-take zero xs = refl
  take-take (suc n) [] = refl
  take-take (suc n) (x ∷ xs) = ap (λ (t : List A). x ∷ t) (take-take n xs)

  -- A push on the newest `n + 1` of some items keeps the newest `n` of them under the new one.
  push_stack-take :
      (n : ℕ) (item : A) (items : List A)
      → push_stack
          (record { data_container_ = take (suc n) items; stack_max_size = pos (suc n) })
          item
        ≡ record { data_container_ = item ∷ take n items; stack_max_size = pos (suc n) }
  unfolding push_stack
  push_stack-take n item items =
      let xs = take (suc n) items in
      let short : length xs ≤ suc n = omega (arith, length-take (suc n) items) in
      elim (Bool-cases (ltb (length xs) (suc n))) [
        | inl room_left ↦
            let e : xs ≡ take n items = sym (take-short n xs (ground arith)) ∙ take-take n items in
            rw (push_stack, room_left, e)
        | inr full ↦
            let e : pop_back xs ≡ take n items =
              pop_back-take n xs (ground arith) ∙ take-take n items in
            rw (push_stack, full, e)
      ]

-- A bounded stack that only grows holds, from the top, the newest `n + 1` of the items pushed on it
-- (`items` lists the newest first).
pub push_all-newest {ℓ} :
    {A : Type ℓ} (n : ℕ) (items : List A)
    → push_all (new_stack (pos (suc n))) items
      ≡ record { data_container_ = take (suc n) items; stack_max_size = pos (suc n) }
push_all-newest n [] = refl
push_all-newest n (item ∷ items) = rw (push_all-newest n items) (push_stack-take n item items)
