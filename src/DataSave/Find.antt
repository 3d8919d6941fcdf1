-- ===== src/DataSave/Find.antt =====
-- include/data_save/directory.h: the file that `find_oldest_jpg_file` finds.
use multi_cctv_object_detect.Prelude.{
  ℕ, ◌≤◌, true, false, List, [], ◌∷◌, ◌≡◌, ◌⊎◌, inl, inr, refl, sym, subst, Option, none, some,
  Bytes, arith, ltb, if◌then◌else◌, Bool-cases, All,
}
use multi_cctv_object_detect.DataSave.{
  Entry, listed, has_extension, older_of, oldest_from, find_oldest_jpg_file,
}

-- An entry of the list satisfies a predicate.
abbrev pub Some : (Entry → Type 0) → List Entry → Type 0
Some P [] = ⊥
Some P (e ∷ entries) = P e ⊎ Some P entries

-- No file with the extension is older than a time.
abbrev NoneOlder : Bytes → ℕ → List Entry → Type 0
NoneOlder extension t entries =
    All (λ e. if has_extension extension e then t ≤ e.last_write_time else Unit) entries

-- A file of the list with this time, path and extension.
abbrev IsFile : Bytes → ℕ → Bytes → Entry → Type 0
IsFile extension t p e = (has_extension extension e ≡ true) × (e.last_write_time ≡ t) × (e.path ≡ p)

-- What the loop has from a file found before on.
abbrev Best : Bytes → ℕ → Bytes → List Entry → Option (ℕ × Bytes) → Type 0
Best extension t₀ p₀ entries o =
    (t : ℕ) × (p : Bytes) × (o ≡ some (t, p))
    × (t ≤ t₀)
    × NoneOlder extension t entries
    × (((t ≡ t₀) × (p ≡ p₀)) ⊎ Some (IsFile extension t p) entries)

module _ (extension : Bytes) where
  Best-older :
      (e : Entry) (entries : List Entry) (t₀ : ℕ) (p₀ : Bytes) {o : Option (ℕ × Bytes)}
      → has_extension extension e ≡ true
      → e.last_write_time ≤ t₀
      → Best extension e.last_write_time e.path entries o
      → Best extension t₀ p₀ (e ∷ entries) o
  Best-older e entries t₀ p₀ file early (t, p, found, low, none_older, inl (at, here)) = (
    t,
    p,
    found,
    omega (arith, low, early),
    (rw file low, none_older),
    inr (inl (file, sym at, sym here)),
  )
  Best-older e entries t₀ p₀ file early (t, p, found, low, none_older, inr later) =
      (t, p, found, omega (arith, low, early), (rw file low, none_older), inr (inr later))

  Best-kept :
      (e : Entry) (entries : List Entry) (t₀ : ℕ) (p₀ : Bytes) {o : Option (ℕ × Bytes)}
      → ((t : ℕ) → t ≤ t₀ → if has_extension extension e then t ≤ e.last_write_time else Unit)
      → Best extension t₀ p₀ entries o
      → Best extension t₀ p₀ (e ∷ entries) o
  Best-kept e entries t₀ p₀ no_older (t, p, found, low, none_older, inl same) =
      (t, p, found, low, (no_older t low, none_older), inl same)
  Best-kept e entries t₀ p₀ no_older (t, p, found, low, none_older, inr later) =
      (t, p, found, low, (no_older t low, none_older), inr (inr later))

  oldest_from-Best :
      (entries : List Entry) (t₀ : ℕ) (p₀ : Bytes)
      → Best extension t₀ p₀ entries (oldest_from extension (some (t₀, p₀)) entries)
  unfolding oldest_from
  oldest_from-Best [] t₀ p₀ = (t₀, p₀, refl, omega arith, tt, inl (refl, refl))
  oldest_from-Best (e ∷ entries) t₀ p₀ = elim (Bool-cases (has_extension extension e)) [
    | inr other ↦
        Best-kept e entries t₀ p₀ (λ t h. rw other tt) (rw other (oldest_from-Best entries t₀ p₀))
    | inl file ↦ elim (Bool-cases (ltb e.last_write_time t₀)) [
      | inl older ↦
          Best-older e entries t₀ p₀ file (ground arith)
            (rw (file, older) (oldest_from-Best entries e.last_write_time e.path))
      | inr newer ↦
          Best-kept e entries t₀ p₀ (λ t h. rw file (ground arith))
            (rw (file, newer) (oldest_from-Best entries t₀ p₀))
    ]
  ]

  -- The path is that of a file with the extension than which no other is older; or it is empty, and
  -- there is no such file.
  abbrev FindsOldest : List Entry → Bytes → Type 0
  FindsOldest entries path =
      ((path ≡ []) × All (λ e. has_extension extension e ≡ false) entries)
      ⊎ ((t : ℕ) × NoneOlder extension t entries × Some (IsFile extension t path) entries)

  path_of : Option (ℕ × Bytes) → Bytes
  path_of o = elim o [ none ↦ [] | some b ↦ b.1 ]

  first-FindsOldest :
      (e : Entry) (entries : List Entry) {o : Option (ℕ × Bytes)}
      → has_extension extension e ≡ true
      → Best extension e.last_write_time e.path entries o
      → FindsOldest (e ∷ entries) (path_of o)
  unfolding path_of
  first-FindsOldest e entries file (t, p, found, low, none_older, inl (at, here)) =
      subst (λ u. FindsOldest (e ∷ entries) (path_of u)) (sym found)
        (inr (t, (rw file low, none_older), inl (file, sym at, sym here)))
  first-FindsOldest e entries file (t, p, found, low, none_older, inr later) =
      subst (λ u. FindsOldest (e ∷ entries) (path_of u)) (sym found)
        (inr (t, (rw file low, none_older), inr later))

  other-FindsOldest :
      (e : Entry) (entries : List Entry) {path : Bytes}
      → has_extension extension e ≡ false
      → FindsOldest entries path
      → FindsOldest (e ∷ entries) path
  other-FindsOldest e entries other (inl (empty, no_file)) = inl (empty, (other, no_file))
  other-FindsOldest e entries other (inr (t, none_older, later)) =
      inr (t, (rw other tt, none_older), inr later)

  oldest_from-FindsOldest :
      (entries : List Entry) → FindsOldest entries (path_of (oldest_from extension none entries))
  unfolding oldest_from path_of
  oldest_from-FindsOldest [] = inl (refl, tt)
  oldest_from-FindsOldest (e ∷ entries) = elim (Bool-cases (has_extension extension e)) [
    | inl file ↦
        let step : older_of extension e none ≡ some (e.last_write_time, e.path) = rw file in
        subst (λ u. FindsOldest (e ∷ entries) (path_of (oldest_from extension u entries)))
          (sym step)
          (first-FindsOldest e entries file (oldest_from-Best entries e.last_write_time e.path))
    | inr other ↦
        let step : older_of extension e none ≡ none = rw other in
        subst (λ u. FindsOldest (e ∷ entries) (path_of (oldest_from extension u entries)))
          (sym step) (other-FindsOldest e entries other (oldest_from-FindsOldest entries))
  ]

  -- In a directory that can be listed, the path found is that of a regular file with the extension
  -- than which no other such file is older; or it is empty, and there is no such file.
  find_oldest-FindsOldest :
      (entries : List Entry) → FindsOldest entries (find_oldest_jpg_file (listed entries) extension)
  unfolding find_oldest_jpg_file path_of
  find_oldest-FindsOldest entries = oldest_from-FindsOldest entries
