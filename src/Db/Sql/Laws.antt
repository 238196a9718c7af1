-- ===== src/Db/Sql/Laws.antt =====
-- What the clauses of a statement do to the rows that a test finds.
use digital_ocean_assignment.Base.{
  ◌≡◌, refl, Bool, true, false, none, some, List, [], ◌∷◌, arith, any, All, Bool-cases, inl, inr,
  if◌then◌else◌,
}
use mathlib.Core.Option
use digital_ocean_assignment.Db.Sql.{find, update, delete, place, order_by}

module _ {A : Type 0} where
  -- A row that is found passes the test.
  pub find_test : (p : A → Bool) (xs : List A) {x : A} → find p xs ≡ some x → p x ≡ true
  unfolding find
  find_test p [] e = ground arith
  find_test p (y ∷ xs) {x} e = ground (arith, find_test p xs {x = x})

  pub find-eq-none_of_any : (p : A → Bool) (xs : List A) → any p xs ≡ false → find p xs ≡ none
  unfolding find
  find-eq-none_of_any p [] h = refl
  find-eq-none_of_any p (x ∷ xs) h = ground (arith, find-eq-none_of_any p xs)

  pub any_of_find : (p : A → Bool) (xs : List A) {x : A} → find p xs ≡ some x → any p xs ≡ true
  unfolding find
  any_of_find p [] e = ground arith
  any_of_find p (y ∷ xs) {x} e = ground (arith, any_of_find p xs {x = x})

  -- What holds of every row holds of one that is found.
  pub find-All :
      (P : A → Type 0) (p : A → Bool) (xs : List A) {x : A} → All P xs → find p xs ≡ some x → P x
  unfolding find
  find-All P p [] h e = ground arith
  find-All P p (x ∷ xs) (px, h) e = elim (Bool-cases (p x)) [
    | inl yes_x ↦ ground arith
    | inr no_x ↦ find-All P p xs h (ground arith)
  ]

  -- A look-up by a test that the assignment does not change sees the changed rows.
  pub find-update :
      (q p : A → Bool) (f : A → A) (xs : List A)
      → ((x : A) → q (f x) ≡ q x)
      → find q (update p f xs) ≡ Option.map (λ x. if p x then f x else x) (find q xs)
  unfolding find update
  find-update q p f [] keep = refl
  find-update q p f (x ∷ xs) keep = ground (arith, keep x, find-update q p f xs keep)

  pub any-update :
      (q p : A → Bool) (f : A → A) (xs : List A)
      → ((x : A) → q (f x) ≡ q x)
      → any q (update p f xs) ≡ any q xs
  unfolding update
  any-update q p f [] keep = refl
  any-update q p f (x ∷ xs) keep = ground (arith, keep x, any-update q p f xs keep)

  pub update-All :
      (P : A → Type 0) (p : A → Bool) (f : A → A) (xs : List A)
      → ((x : A) → P x → P (f x))
      → All P xs
      → All P (update p f xs)
  unfolding update
  update-All P p f [] keep h = tt
  update-All P p f (x ∷ xs) keep (px, h) = elim (Bool-cases (p x)) [
    | inl hit ↦ (rw hit (keep x px), update-All P p f xs keep h)
    | inr miss ↦ (rw miss px, update-All P p f xs keep h)
  ]

  pub delete-All : (P : A → Type 0) (p : A → Bool) (xs : List A) → All P xs → All P (delete p xs)
  unfolding delete
  delete-All P p [] h = tt
  delete-All P p (x ∷ xs) (px, h) = elim (Bool-cases (p x)) [
    | inl hit ↦ rw hit (delete-All P p xs h)
    | inr miss ↦ rw miss (px, delete-All P p xs h)
  ]

  -- No row that is left passes the test of the deletion.
  pub delete_rest : (p : A → Bool) (xs : List A) → All (λ x. p x ≡ false) (delete p xs)
  unfolding delete
  delete_rest p [] = tt
  delete_rest p (x ∷ xs) = elim (Bool-cases (p x)) [
    | inl hit ↦ rw hit (delete_rest p xs)
    | inr miss ↦ rw miss (miss, delete_rest p xs)
  ]

  -- A look-up whose test no deleted row passes is unchanged.
  pub find-delete :
      (q p : A → Bool) (xs : List A)
      → ((x : A) → q x ≡ true → p x ≡ false)
      → find q (delete p xs) ≡ find q xs
  unfolding find delete
  find-delete q p [] apart = refl
  find-delete q p (x ∷ xs) apart = ground (arith, apart x, find-delete q p xs apart)

  pub place-All :
      (P : A → Type 0) (before : A → A → Bool) (x : A) (xs : List A)
      → P x
      → All P xs
      → All P (place before x xs)
  unfolding place
  place-All P before x [] px h = (px, tt)
  place-All P before x (y ∷ ys) px (py, h) = elim (Bool-cases (before x y)) [
    | inl first ↦ rw first (px, (py, h))
    | inr later ↦ rw later (py, place-All P before x ys px h)
  ]

  pub order_by-All :
      (P : A → Type 0) (before : A → A → Bool) (xs : List A) → All P xs → All P (order_by before xs)
  unfolding order_by
  order_by-All P before [] h = tt
  order_by-All P before (x ∷ xs) (px, h) =
      place-All P before x (order_by before xs) px (order_by-All P before xs h)

  -- A second assignment to the same rows that overwrites the first.
  pub update-update :
      (p : A → Bool) (f g : A → A) (xs : List A)
      → ((x : A) → p (f x) ≡ p x)
      → ((x : A) → g (f x) ≡ g x)
      → update p g (update p f xs) ≡ update p g xs
  unfolding update
  update-update p f g [] keep over = refl
  update-update p f g (x ∷ xs) keep over =
      ground (arith, keep x, over x, update-update p f g xs keep over)

  -- Rows that the second deletion takes anyway may change or go before it.
  pub delete-update :
      (q p : A → Bool) (f : A → A) (xs : List A)
      → ((x : A) → p x ≡ true → q x ≡ true)
      → ((x : A) → q (f x) ≡ q x)
      → delete q (update p f xs) ≡ delete q xs
  unfolding delete update
  delete-update q p f [] within keep = refl
  delete-update q p f (x ∷ xs) within keep =
      ground (arith, within x, keep x, delete-update q p f xs within keep)

  pub delete-delete :
      (q p : A → Bool) (xs : List A)
      → ((x : A) → p x ≡ true → q x ≡ true)
      → delete q (delete p xs) ≡ delete q xs
  unfolding delete
  delete-delete q p [] within = refl
  delete-delete q p (x ∷ xs) within = ground (arith, within x, delete-delete q p xs within)
