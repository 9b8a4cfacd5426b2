-- ===== src/Common/Lists.antt =====
-- Lists over the native numbers under the library's names, filters by a Boolean test, membership
-- as a test, and the predicate that holds of every entry.
use Prim.Native.Nat.{ℕ, zero, suc, ◌≤◌}
use mathlib.Core.Path.{◌≡◌, refl, subst, ◌∙◌}
use mathlib.Core.Logic.{ite, if_neg, ◌⊎◌, inr}
use mathlib.Core.Bool.{Bool, true, false}
use mathlib.Core.List.{List, [], ◌∷◌, ◌++◌, Permᴰ}
use native.Mathlib.Omega.{arith}
use order_outbox_lab.Common.Tests.{if◌then◌else◌}

module _ {ℓ} {A : Type ℓ} where
  abbrev pub length : List A → ℕ
  length [] = 0
  length (x ∷ xs) = suc (length xs)

  unfoldable pub take : ℕ → List A → List A
  take zero xs = []
  take (suc n) [] = []
  take (suc n) (x ∷ xs) = x ∷ take n xs

  -- `Array.prototype.filter` and `WHERE`: the rows that pass a Boolean test, in order.
  unfoldable pub keep : (A → Bool) → List A → List A
  keep p [] = []
  keep p (x ∷ xs) = if p x then x ∷ keep p xs else keep p xs

  pub length-take-le : (n : ℕ) (xs : List A) → length (take n xs) ≤ n
  unfolding take
  length-take-le (suc n) (x ∷ xs) = omega (arith, length-take-le n xs)
  length-take-le _ _ = omega arith

module _ {A : Type 0} (dec : Discrete A) where
  unfoldable pub contains : A → List A → Bool
  contains a [] = false
  contains a (x ∷ xs) = ite (dec x a) true (contains a xs)

  -- Every entry that is not `a`.
  unfoldable pub without : A → List A → List A
  without a [] = []
  without a (x ∷ xs) = ite (dec x a) (without a xs) (x ∷ without a xs)

  pub contains-without :
      (a b : A) (xs : List A) → contains b (without a xs) ≡ ite (dec a b) false (contains b xs)
  unfolding contains without
  contains-without a b [] = ground arith
  contains-without a b (x ∷ xs) = ground (arith, contains-without a b xs)

module _ {A : Type 0} (dec : Discrete A) where
  pub contains-cons :
      (a x : A) (xs : List A) → contains dec a xs ≡ true → contains dec a (x ∷ xs) ≡ true
  unfolding contains
  contains-cons a x xs h = ground arith

  pub contains-append :
      (a : A) (xs ys : List A)
      → contains dec a (xs ++ ys) ≡ true
      → (contains dec a xs ≡ true) ⊎ (contains dec a ys ≡ true)
  unfolding contains
  contains-append a [] ys h = inr h
  contains-append a (x ∷ xs) ys h = ground (arith, contains-append a xs ys)

module _ {A : Type 0} (dec : Discrete A) where
  pub contains-append_left :
      (a : A) (xs ys : List A) → contains dec a xs ≡ true → contains dec a (xs ++ ys) ≡ true
  unfolding contains
  contains-append_left a [] ys h = cc
  contains-append_left a (x ∷ xs) ys h = ground (arith, contains-append_left a xs ys)

  pub contains-append_right :
      (a : A) (xs ys : List A) → contains dec a ys ≡ true → contains dec a (xs ++ ys) ≡ true
  unfolding contains
  contains-append_right a [] ys h = h
  contains-append_right a (x ∷ xs) ys h = ground (arith, contains-append_right a xs ys)

abbrev pub All {ℓ κ} : {A : Type ℓ} → (A → Type κ) → List A → Type κ
All P [] = Unit
All P (x ∷ xs) = P x × All P xs

module _ {ℓ κ} {A : Type ℓ} (P : A → Type κ) where
  pub All-append : (xs ys : List A) → All P xs → All P ys → All P (xs ++ ys)
  All-append [] ys h k = k
  All-append (x ∷ xs) ys (h, hs) k = (h, All-append xs ys hs k)

  pub All-take : (n : ℕ) (xs : List A) → All P xs → All P (take n xs)
  unfolding take
  All-take (suc n) (x ∷ xs) (h, hs) = (h, All-take n xs hs)
  All-take zero xs h = tt
  All-take (suc n) [] h = tt

  pub All-keep : (p : A → Bool) (xs : List A) → All P xs → All P (keep p xs)
  unfolding keep
  All-keep p [] h = tt
  All-keep p (x ∷ xs) (h, hs) = ground (arith, All-keep p xs hs)

  pub All-perm : {xs ys : List A} → Permᴰ xs ys → All P xs → All P ys
  All-perm Permᴰ.nil h = h
  All-perm (Permᴰ.cons e p) (h, hs) = (subst P e h, All-perm p hs)
  All-perm (Permᴰ.swap e f) (h, (k, hs)) = (subst P f k, (subst P e h, hs))
  All-perm (Permᴰ.trans p q) h = All-perm q (All-perm p h)

  pub All-map {μ} : (Q : A → Type μ) → ((x : A) → P x → Q x) → (xs : List A) → All P xs → All Q xs
  All-map Q f [] h = tt
  All-map Q f (x ∷ xs) (h, hs) = (f x h, All-map Q f xs hs)

module _ {A : Type 0} where
  pub length-Permᴰ : {xs ys : List A} → Permᴰ xs ys → length xs ≡ length ys
  length-Permᴰ Permᴰ.nil = refl
  length-Permᴰ (Permᴰ.cons e p) = omega (arith, length-Permᴰ p)
  length-Permᴰ (Permᴰ.swap e f) = refl
  length-Permᴰ (Permᴰ.trans p q) = length-Permᴰ p ∙ length-Permᴰ q

module _ {A B : Type 0} (R : A → B → Type 0) where
  All-cons_each :
      (x : A) (xs : List A) (ys : List B)
      → All (R x) ys
      → All (λ y. All (λ z. R z y) xs) ys
      → All (λ y. All (λ z. R z y) (x ∷ xs)) ys
  All-cons_each x xs [] h k = tt
  All-cons_each x xs (y ∷ ys) (h, hs) (k, ks) = ((h, k), All-cons_each x xs ys hs ks)

  All-nil_each : (ys : List B) → All (λ y. All (λ z. R z y) []) ys
  All-nil_each [] = tt
  All-nil_each (y ∷ ys) = (tt, All-nil_each ys)

  pub All-swap :
      (xs : List A) (ys : List B) → All (λ x. All (R x) ys) xs → All (λ y. All (λ x. R x y) xs) ys
  All-swap [] ys h = All-nil_each ys
  All-swap (x ∷ xs) ys (h, hs) = All-cons_each x xs ys h (All-swap xs ys hs)

module _ {κ} {A : Type 0} (P : A → Type κ) where
  pub All-contains :
      (dec : Discrete A) (a : A) (xs : List A) → All P xs → contains dec a xs ≡ true → P a
  unfolding contains
  All-contains dec a [] h c = cc
  All-contains dec a (x ∷ xs) (h, hs) c = elim (dec x a) [
    | yes e ↦ subst P e h
    | no n ↦ All-contains dec a xs hs (rw (if_neg _ n) at c)
  ]
