-- ===== src/Db/Sql/Order.antt =====
-- ORDER BY yields the rows in their order.
use digital_ocean_assignment.Base.{
  ◌≡◌, Bool, true, false, List, [], ◌∷◌, All, All-map, All-take, Bool-cases, inl, inr, ℕ, zero, suc,
  take, drop,
}
use digital_ocean_assignment.Db.Sql.{place, order_by, page_of}
use digital_ocean_assignment.Db.Sql.Laws.{place-All}

module _ {A : Type 0} (before : A → A → Bool) where
  -- Every row may stand in front of all that follow it.
  abbrev pub Ordered : List A → Type 0
  Ordered [] = Unit
  Ordered (x ∷ xs) = All (λ y. before x y ≡ true) xs × Ordered xs

  Ordered-take : (n : ℕ) (xs : List A) → Ordered xs → Ordered (take n xs)
  Ordered-take zero xs h = tt
  Ordered-take (suc n) [] h = tt
  Ordered-take (suc n) (x ∷ xs) (first, h) =
      (All-take (λ y. before x y ≡ true) n xs first, Ordered-take n xs h)

  Ordered-drop : (n : ℕ) (xs : List A) → Ordered xs → Ordered (drop n xs)
  Ordered-drop zero xs h = h
  Ordered-drop (suc n) [] h = tt
  Ordered-drop (suc n) (x ∷ xs) (first, h) = Ordered-drop n xs h

  module _ (total : (x y : A) → before x y ≡ false → before y x ≡ true)
      (trans : (x y z : A) → before x y ≡ true → before y z ≡ true → before x z ≡ true) where
    Ordered-place : (x : A) (xs : List A) → Ordered xs → Ordered (place before x xs)
    unfolding place
    Ordered-place x [] h = (tt, tt)
    Ordered-place x (y ∷ ys) (first, h) = elim (Bool-cases (before x y)) [
      | inl front ↦ rw front (
        (
          front,
          All-map (λ z. before y z ≡ true) (λ z. before x z ≡ true) (λ z. trans x y z front) ys
              first,
        ),
        (first, h),
      )
      | inr behind ↦ rw behind (
        place-All (λ z. before y z ≡ true) before x ys (total x y behind) first,
        Ordered-place x ys h,
      )
    ]

    Ordered-order_by : (xs : List A) → Ordered (order_by before xs)
    unfolding order_by
    Ordered-order_by [] = tt
    Ordered-order_by (x ∷ xs) = Ordered-place x (order_by before xs) (Ordered-order_by xs)

    pub Ordered-page_of :
        (limit offset : ℕ) (xs : List A) → Ordered (page_of limit offset (order_by before xs))
    Ordered-page_of limit offset xs =
        Ordered-take limit (drop offset (order_by before xs))
          (Ordered-drop offset (order_by before xs) (Ordered-order_by xs))
