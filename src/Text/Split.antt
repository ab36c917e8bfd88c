-- ===== src/Text/Split.antt =====
-- Pieces of texts.
use dockerwall.Base.{
  ℕ, ◌≡◌, refl, ap, ◌∙◌, true, none, some, List, [], ◌∷◌, ◌++◌, arith, all, eqb_refl,
}
use dockerwall.Text.{Text, free, split, split_once, splitn, join}

pub split-free : (sep : ℕ) (s : Text) → free sep s ≡ true → split sep s ≡ s ∷ []
unfolding split
split-free sep [] h = refl
split-free sep (c ∷ s) h = ground (arith, split-free sep s)

pub split-append :
    (sep : ℕ) (w rest : Text)
    → free sep w ≡ true
    → split sep (w ++ (sep ∷ rest)) ≡ w ∷ split sep rest
unfolding split
split-append sep [] rest h = rw (eqb_refl sep)
split-append sep (c ∷ w) rest h = ground (arith, split-append sep w rest)

-- Splitting undoes joining: the pieces come back.
pub split-join :
    (sep : ℕ) (w : Text) (ws : List Text)
    → all (free sep) (w ∷ ws) ≡ true
    → split sep (join (sep ∷ []) (w ∷ ws)) ≡ w ∷ ws
unfolding join
split-join sep w [] h = split-free sep w (ground arith)
split-join sep w (v ∷ ws) h =
    split-append sep w (join (sep ∷ []) (v ∷ ws)) (ground arith)
    ∙ ap (◌∷◌ w) (split-join sep v ws (ground arith))

pub split_once-append :
    (sep : ℕ) (w rest : Text)
    → free sep w ≡ true
    → split_once sep (w ++ (sep ∷ rest)) ≡ some (w, rest)
unfolding split_once
split_once-append sep [] rest h = rw (eqb_refl sep)
split_once-append sep (c ∷ w) rest h = ground (arith, split_once-append sep w rest)

pub split_once-free : (sep : ℕ) (s : Text) → free sep s ≡ true → split_once sep s ≡ none
unfolding split_once
split_once-free sep [] h = refl
split_once-free sep (c ∷ s) h = ground (arith, split_once-free sep s)

pub splitn_three :
    (sep : ℕ) (a b c : Text)
    → free sep a ≡ true
    → free sep b ≡ true
    → splitn 3 sep (a ++ (sep ∷ (b ++ (sep ∷ c)))) ≡ a ∷ b ∷ c ∷ []
unfolding splitn
splitn_three sep a b c ha hb =
    ground (arith, split_once-append sep a (b ++ (sep ∷ c)) ha, split_once-append sep b c hb)

pub free-append : (c : ℕ) (s t : Text) → free c s ≡ true → free c t ≡ true → free c (s ++ t) ≡ true
free-append c [] t hs ht = ht
free-append c (d ∷ s) t hs ht = ground (arith, free-append c s t)
