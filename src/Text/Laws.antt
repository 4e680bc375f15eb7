-- ===== src/Text/Laws.antt =====
-- Laws of the text methods.
use xanh_tab.Prelude.{
  ℕ, ◌≡◌, refl, ap, sym, ◌∙◌, ◌↔◌, true, List, [], ◌∷◌, ◌++◌, arith, ◌==◌, ==_iff, Bool-cases, inl,
  inr,
}
use mathlib.Core.Path.{ap₂}
use xanh_tab.Text.{Text, text_eq, split, extend, join, lower, to_ascii_lowercase}

pub text_eq→eq : (s t : Text) → text_eq s t ≡ true → s ≡ t
unfolding text_eq
text_eq→eq [] [] h = refl
text_eq→eq (a ∷ s) (b ∷ t) h = ground (arith, text_eq→eq s t)
text_eq→eq [] (_ ∷ _) h = cc
text_eq→eq (_ ∷ _) [] h = cc

pub text_eq_refl : (s : Text) → text_eq s s ≡ true
unfolding text_eq
text_eq_refl [] = refl
text_eq_refl (a ∷ s) = ground (arith, text_eq_refl s)

pub text_eq_iff : (s t : Text) → (text_eq s t ≡ true) ↔ (s ≡ t)
text_eq_iff s t = (text_eq→eq s t, λ e. rw e (text_eq_refl t))

pub lower_idem : (c : ℕ) → lower (lower c) ≡ lower c
unfolding lower
lower_idem c = ground arith

pub to_ascii_lowercase_idem :
    (s : Text) → to_ascii_lowercase (to_ascii_lowercase s) ≡ to_ascii_lowercase s
unfolding to_ascii_lowercase
to_ascii_lowercase_idem [] = refl
to_ascii_lowercase_idem (c ∷ s) = cc (lower_idem c, to_ascii_lowercase_idem s)

pub split-cons :
    (sep : ℕ) (s : Text) → (piece : Text) × (pieces : List Text) × (split sep s ≡ piece ∷ pieces)
unfolding split extend
split-cons sep [] = ([], [], refl)
split-cons sep (c ∷ s) = elim (Bool-cases (c == sep)) [
  | inl here ↦ ([], split sep s, rw here)
  | inr later ↦ let (piece, pieces, e) = split-cons sep s in (c ∷ piece, pieces, rw (later, e))
]

join-extend :
    (sep : Text) (c : ℕ) (pieces : List Text) → join sep (extend c pieces) ≡ c ∷ join sep pieces
unfolding join extend
join-extend sep c [] = refl
join-extend sep c (p ∷ []) = refl
join-extend sep c (p ∷ q ∷ ps) = refl

-- Joining the pieces gives the text back.
pub join-split : (sep : ℕ) (s : Text) → join (sep ∷ []) (split sep s) ≡ s
unfolding join split
join-split sep [] = refl
join-split sep (c ∷ s) = elim (Bool-cases (c == sep)) [
  | inl here ↦
      let (piece, pieces, e) = split-cons sep s in
      let same : c ≡ sep = (==_iff c sep).0 here in
      rw (here, e) (ap₂ ◌∷◌ (sym same) (ap (join (sep ∷ [])) (sym e) ∙ join-split sep s))
  | inr later ↦ rw (later, join-extend) (ap (λ t. c ∷ t) (join-split sep s))
]

extend-append :
    (c : ℕ) (p : Text) (ps qs : List Text) → extend c ((p ∷ ps) ++ qs) ≡ extend c (p ∷ ps) ++ qs
unfolding extend
extend-append c p ps qs = refl

-- A separator ends a piece.
pub split-append : (sep : ℕ) (s t : Text) → split sep (s ++ sep ∷ t) ≡ split sep s ++ split sep t
unfolding split
split-append sep [] t = ground arith
split-append sep (c ∷ s) t = elim (Bool-cases (c == sep)) [
  | inl here ↦ rw here (ap (λ ps. [] ∷ ps) (split-append sep s t))
  | inr later ↦ let (piece, pieces, e) = split-cons sep s in rw (later, split-append sep s t, e)
]
