-- ===== src/Queries/Pages.antt =====
-- What one page of a list query is, given that ORDER BY sorts by a linear key.
use order_outbox_lab.Common.{
  ℕ, zero, suc, ◌≡◌, ◌≤◌, refl, ap, subst, ◌⊎◌, inl, inr, Bool, true, List, [], ◌∷◌, ◌++◌, Permᴰ,
  All, All-perm, All-take, length, length-take-le, take, keep, leb, arith,
}
use order_outbox_lab.Pipeline.{Order}
use order_outbox_lab.Database.Query.{IsLinear, IsOrdered, Sorter, directed, find}

-- `page` has at most `limit` of the wanted rows, in order; the wanted rows that it leaves out do
-- not come before any of its rows, and there are none unless it is full.
pub record Page {A : Type 0} (wanted : A → Bool) (le : A → A → Bool) (limit : ℕ)
    (rows page : List A) : Type 0 where
  pub rest : List A
  pub same_rows : Permᴰ (keep wanted rows) (page ++ rest)
  pub all_wanted : All (λ a. wanted a ≡ true) page
  pub ordered : IsOrdered le page
  pub bounded : length page ≤ limit
  pub first_ones : All (λ a. All (λ b. le a b ≡ true) rest) page
  pub full : (rest ≡ []) ⊎ (length page ≡ limit)

module _ {A : Type 0} where
  unfoldable drop : ℕ → List A → List A
  drop zero xs = xs
  drop (suc n) [] = []
  drop (suc n) (x ∷ xs) = drop n xs

  take-append-drop : (n : ℕ) (xs : List A) → xs ≡ take n xs ++ drop n xs
  unfolding take drop
  take-append-drop zero xs = refl
  take-append-drop (suc n) [] = refl
  take-append-drop (suc n) (x ∷ xs) = ap (◌∷◌ x) (take-append-drop n xs)

  take-full : (n : ℕ) (xs : List A) → (drop n xs ≡ []) ⊎ (length (take n xs) ≡ n)
  unfolding take drop
  take-full zero xs = inr refl
  take-full (suc n) [] = inl refl
  take-full (suc n) (x ∷ xs) = ground (arith, take-full n xs)

  All-drop : (P : A → Type 0) (n : ℕ) (xs : List A) → All P xs → All P (drop n xs)
  unfolding drop
  All-drop P zero xs h = h
  All-drop P (suc n) [] h = tt
  All-drop P (suc n) (x ∷ xs) (h, hs) = All-drop P n xs hs

  All-keep_self : (p : A → Bool) (xs : List A) → All (λ a. p a ≡ true) (keep p xs)
  unfolding keep
  All-keep_self p [] = tt
  All-keep_self p (x ∷ xs) = ground (arith, All-keep_self p xs)

  module _ (le : A → A → Bool) where
    IsOrdered-take : (n : ℕ) (xs : List A) → IsOrdered le xs → IsOrdered le (take n xs)
    unfolding take
    IsOrdered-take zero xs o = tt
    IsOrdered-take (suc n) [] o = tt
    IsOrdered-take (suc n) (x ∷ xs) (h, o) =
        (All-take (λ y. le x y ≡ true) n xs h, IsOrdered-take n xs o)

    take-before-drop :
        (n : ℕ) (xs : List A)
        → IsOrdered le xs
        → All (λ a. All (λ b. le a b ≡ true) (drop n xs)) (take n xs)
    unfolding take drop
    take-before-drop zero xs o = tt
    take-before-drop (suc n) [] o = tt
    take-before-drop (suc n) (x ∷ xs) (h, o) = (All-drop _ n xs h, take-before-drop n xs o)

    pub find-Page :
        (sorter : Sorter) (wanted : A → Bool) (limit : ℕ) (rows : List A)
        → IsLinear le
        → Page wanted le limit rows (find sorter wanted le limit rows)
    unfolding find
    find-Page sorter wanted limit rows linear =
        let sorted = sorter.order_by le (keep wanted rows) in
        let same = sorter.same_rows le (keep wanted rows) in
        let o = sorter.ordered le (keep wanted rows) linear in
        record {
          rest = drop limit sorted;
          same_rows = subst (Permᴰ (keep wanted rows)) (take-append-drop limit sorted) same;
          all_wanted = All-take _ limit sorted (All-perm _ same (All-keep_self wanted rows));
          ordered = IsOrdered-take limit sorted o;
          bounded = length-take-le limit sorted;
          first_ones = take-before-drop limit sorted o;
          full = take-full limit sorted;
        }

-- A numeric key sorts linearly, up or down.
pub key-IsLinear :
    {A : Type 0} (key : A → ℕ) (d : Order) → IsLinear (directed d (λ a b. leb (key a) (key b)))
key-IsLinear key Order.asc = record {
  total = λ a b. ground arith;
  trans = λ a b c h k. ground arith;
}
key-IsLinear key Order.desc = record {
  total = λ a b. ground arith;
  trans = λ a b c h k. ground arith;
}
