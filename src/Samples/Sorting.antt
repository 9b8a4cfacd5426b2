-- ===== src/Samples/Sorting.antt =====
-- An insertion sort for ORDER BY.
use order_outbox_lab.Common.{
  ◌≡◌, refl, Bool, Bool-cases, true, false, List, [], ◌∷◌, inl, inr, Permᴰ, All, All-map, All-perm,
  if◌then◌else◌,
}
use order_outbox_lab.Database.Query.{IsLinear, IsOrdered, Sorter}

module _ {A : Type 0} (le : A → A → Bool) where
  unfoldable pub insert_sorted : A → List A → List A
  insert_sorted a [] = a ∷ []
  insert_sorted a (x ∷ xs) = if le a x then a ∷ (x ∷ xs) else x ∷ insert_sorted a xs

  unfoldable pub insertion_sort : List A → List A
  unfolding insert_sorted
  insertion_sort [] = []
  insertion_sort (x ∷ xs) = insert_sorted x (insertion_sort xs)

  Perm-same : (xs : List A) → Permᴰ xs xs
  Perm-same [] = Permᴰ.nil
  Perm-same (x ∷ xs) = Permᴰ.cons refl (Perm-same xs)

  Perm-insert_sorted : (a : A) (xs : List A) → Permᴰ (a ∷ xs) (insert_sorted a xs)
  unfolding insert_sorted
  Perm-insert_sorted a [] = Perm-same (a ∷ [])
  Perm-insert_sorted a (x ∷ xs) = elim (Bool-cases (le a x)) [
    | inl before ↦ rw before (Perm-same (a ∷ (x ∷ xs)))
    | inr after ↦
        rw after (Permᴰ.trans (Permᴰ.swap refl refl) (Permᴰ.cons refl (Perm-insert_sorted a xs)))
  ]

  pub Perm-insertion_sort : (xs : List A) → Permᴰ xs (insertion_sort xs)
  unfolding insertion_sort
  Perm-insertion_sort [] = Permᴰ.nil
  Perm-insertion_sort (x ∷ xs) =
      Permᴰ.trans (Permᴰ.cons refl (Perm-insertion_sort xs))
        (Perm-insert_sorted x (insertion_sort xs))

  module _ (linear : IsLinear le) where
    le-All :
        (a x : A) (xs : List A)
        → le a x ≡ true
        → All (λ y. le x y ≡ true) xs
        → All (λ y. le a y ≡ true) xs
    le-All a x xs h = All-map (λ y. le x y ≡ true) _ (λ y k. linear.trans a x y h k) xs

    IsOrdered-insert_sorted :
        (a : A) (xs : List A) → IsOrdered le xs → IsOrdered le (insert_sorted a xs)
    unfolding insert_sorted
    IsOrdered-insert_sorted a [] o = (tt, tt)
    IsOrdered-insert_sorted a (x ∷ xs) (h, o) = elim (Bool-cases (le a x)) [
      | inl before ↦ rw before ((before, le-All a x xs before h), (h, o))
      | inr after ↦ rw after (
        All-perm (λ y. le x y ≡ true) (Perm-insert_sorted a xs) (turned after, h),
        IsOrdered-insert_sorted a xs o,
      )
    ]
      where
        turned : le a x ≡ false → le x a ≡ true
        turned e = elim (linear.total a x) [ inl q ↦ cc | inr q ↦ q ]

    pub IsOrdered-insertion_sort : (xs : List A) → IsOrdered le (insertion_sort xs)
    unfolding insertion_sort
    IsOrdered-insertion_sort [] = tt
    IsOrdered-insertion_sort (x ∷ xs) =
        IsOrdered-insert_sorted x (insertion_sort xs) (IsOrdered-insertion_sort xs)

unfoldable pub sample_sorter : Sorter
unfolding insertion_sort
sample_sorter = record {
  order_by = λ {A} le rows. insertion_sort le rows;
  same_rows = λ {A} le rows. Perm-insertion_sort le rows;
  ordered = λ {A} le rows linear. IsOrdered-insertion_sort le linear rows;
}
