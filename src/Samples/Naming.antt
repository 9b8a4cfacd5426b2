-- ===== src/Samples/Naming.antt =====
-- A naming strategy: each capital becomes an underscore and the letter in lower case.
use order_outbox_lab.Common.{
  ◌+◌, ◌≡◌, refl, ap, sym, ◌∙◌, true, List, [], ◌∷◌, ◌++◌, Text, All, leb, ◌&&◌, if◌then◌else◌,
  arith,
}
use order_outbox_lab.Stages.Handlers.{upper_first}
use order_outbox_lab.Schema.Matching.{is_lower, is_word, camel, snake, NamingStrategy}

unfoldable snake_of : Text → Text
snake_of [] = []
snake_of (c ∷ s) =
    let rest = snake_of s in if leb b'A' c && leb c b'Z' then b'_' ∷ (c + 32) ∷ rest else c ∷ rest

snake_of-lower : (w rest : Text) → is_lower w ≡ true → snake_of (w ++ rest) ≡ w ++ snake_of rest
unfolding snake_of is_lower
snake_of-lower [] rest h = refl
snake_of-lower (c ∷ w) rest h = ground (arith, snake_of-lower w rest)

snake_of-upper :
    (w rest : Text)
    → is_word w ≡ true
    → snake_of (upper_first w ++ rest) ≡ b'_' ∷ (w ++ snake_of rest)
unfolding snake_of is_lower
snake_of-upper [] rest h = cc
snake_of-upper (c ∷ w) rest h = ground (arith, snake_of-lower w rest)

append_nil : (s : Text) → s ++ [] ≡ s
append_nil [] = refl
append_nil (c ∷ s) = ap (◌∷◌ c) (append_nil s)

snake_of-next :
    (w : Text) (ws : List Text)
    → All (λ v. is_word v ≡ true) (w ∷ ws)
    → snake_of (camel (upper_first w) ws) ≡ b'_' ∷ snake w ws
unfolding snake_of
snake_of-next w [] (h, _) =
    ap snake_of (sym (append_nil (upper_first w)))
    ∙ snake_of-upper w [] h
    ∙ ap (◌∷◌ b'_') (append_nil w)
snake_of-next w (v ∷ ws) (h, hs) =
    snake_of-upper w (camel (upper_first v) ws) h
    ∙ ap (λ t. b'_' ∷ (w ++ t)) (snake_of-next v ws hs)

word_lower : (w : Text) → is_word w ≡ true → is_lower w ≡ true
word_lower [] h = cc
word_lower (c ∷ w) h = h

snake_of-camel :
    (w : Text) (ws : List Text)
    → All (λ v. is_word v ≡ true) (w ∷ ws)
    → snake_of (camel w ws) ≡ snake w ws
unfolding snake_of
snake_of-camel w [] (h, _) =
    ap snake_of (sym (append_nil w)) ∙ snake_of-lower w [] (word_lower w h) ∙ append_nil w
snake_of-camel w (v ∷ ws) (h, hs) =
    snake_of-lower w (camel (upper_first v) ws) (word_lower w h)
    ∙ ap (λ t. w ++ t) (snake_of-next v ws hs)

pub sample_naming : NamingStrategy
sample_naming = record { column_name = snake_of; snake_case = snake_of-camel }
