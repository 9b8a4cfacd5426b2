-- ===== src/Schema/Reordering.antt =====
-- A test whether two lists have the same entries.
use order_outbox_lab.Common.{
  ◌≡◌, refl, sym, subst, inl, inr, Bool, true, false, List, [], ◌∷◌, Option, none, some, Permᴰ, ite,
  Option-cases, arith,
}
use order_outbox_lab.Schema.{map_some}

module _ {A : Type 0} (dec : Discrete A) where
  unfoldable pub take_out : A → List A → Option (List A)
  take_out x [] = none
  take_out x (y ∷ ys) =
      let rest = take_out x ys in ite (dec y x) (some ys) (map_some (λ zs. y ∷ zs) rest)

  unfoldable pub reorders : List A → List A → Bool
  reorders [] [] = true
  reorders [] (y ∷ ys) = false
  reorders (x ∷ xs) ys = elim (take_out x ys) [ none ↦ false | some zs ↦ reorders xs zs ]

  Permᴰ-same : (xs : List A) → Permᴰ xs xs
  Permᴰ-same [] = Permᴰ.nil
  Permᴰ-same (x ∷ xs) = Permᴰ.cons refl (Permᴰ-same xs)

  take_out-Permᴰ : (x : A) (ys : List A) {zs : List A} → take_out x ys ≡ some zs → Permᴰ (x ∷ zs) ys
  unfolding take_out
  take_out-Permᴰ x [] h = cc
  take_out-Permᴰ x (y ∷ ys) {zs} h = elim (dec y x) [
    | yes e ↦
        let same : ys ≡ zs = ground arith in
        subst (λ l. Permᴰ (x ∷ l) (y ∷ ys)) same (Permᴰ.cons (sym e) (Permᴰ-same ys))
    | no n ↦ elim (Option-cases (take_out x ys)) [
      | inl missing ↦ absurd (ground (arith, missing))
      | inr (rest, found) ↦
          let same : y ∷ rest ≡ zs = ground (arith, found) in
          subst (λ l. Permᴰ (x ∷ l) (y ∷ ys)) same
            (Permᴰ.trans (Permᴰ.swap refl refl) (Permᴰ.cons refl (take_out-Permᴰ x ys found)))
    ]
  ]

  pub reorders-Permᴰ : (xs ys : List A) → reorders xs ys ≡ true → Permᴰ xs ys
  unfolding reorders
  reorders-Permᴰ [] [] h = Permᴰ.nil
  reorders-Permᴰ [] (y ∷ ys) h = cc
  reorders-Permᴰ (x ∷ xs) ys h = elim (Option-cases (take_out x ys)) [
    | inl missing ↦ absurd (ground (arith, missing))
    | inr (zs, found) ↦
        Permᴰ.trans (Permᴰ.cons refl (reorders-Permᴰ xs zs (ground (arith, found))))
          (take_out-Permᴰ x ys found)
  ]
