-- ===== src/Blocklist/Order.antt =====
-- src/blocklist.rs: the order of a set of domains.
use xanh_tab.Prelude.{
  ◌≡◌, refl, inl, inr, Bool, true, false, ◌&&◌, ◌||◌, List, [], ◌∷◌, ◌++◌, arith, any, Bool-cases,
}
use xanh_tab.Text.{Text, text_eq}
use xanh_tab.Text.Laws.{text_eq_iff, text_eq_refl}
use xanh_tab.Blocklist.Compile.{text_lt, insert_domain, insert_all}

-- Each text is less than the next: sorted, and without a repetition.
unfoldable pub increasing : List Text → Bool
unfolding text_lt
increasing [] = true
increasing (x ∷ []) = true
increasing (x ∷ y ∷ xs) = text_lt x y && increasing (y ∷ xs)

unfoldable pub member : Text → List Text → Bool
unfolding text_eq
member d xs = any (λ x. text_eq x d) xs

total : (s t : Text) → text_eq s t ≡ false → text_lt s t ≡ false → text_lt t s ≡ true
unfolding text_eq text_lt
total [] [] e l = cc
total [] (d ∷ t) e l = cc
total (c ∷ s) [] e l = refl
total (c ∷ s) (d ∷ t) e l = ground (arith, total s t)

-- Insertion behind a smaller text.
insert-behind :
    (x d : Text) (xs : List Text)
    → increasing (x ∷ xs) ≡ true
    → text_lt x d ≡ true
    → increasing (x ∷ insert_domain d xs) ≡ true
unfolding increasing insert_domain
insert-behind x d [] h l = ground arith
insert-behind x d (y ∷ xs) h l = ground (arith, total d y, insert-behind y d xs)

insert-increasing :
    (d : Text) (xs : List Text) → increasing xs ≡ true → increasing (insert_domain d xs) ≡ true
unfolding increasing insert_domain
insert-increasing d [] h = refl
insert-increasing d (x ∷ xs) h = ground (arith, total d x, insert-behind x d xs)

pub insert_all-increasing :
    (ds xs : List Text) → increasing xs ≡ true → increasing (insert_all ds xs) ≡ true
unfolding insert_all
insert_all-increasing [] xs h = h
insert_all-increasing (d ∷ ds) xs h =
    insert_all-increasing ds (insert_domain d xs) (insert-increasing d xs h)

insert-member :
    (e d : Text) (xs : List Text) → member e (insert_domain d xs) ≡ (text_eq d e || member e xs)
unfolding member insert_domain
insert-member e d [] = ground arith
insert-member e d (x ∷ xs) = elim (Bool-cases (text_eq d x)) [
  | inl q ↦ rw ((text_eq_iff d x).0 q) (ground (arith, text_eq_refl x))
  | inr q ↦ ground (arith, insert-member e d xs)
]

pub insert_all-member :
    (e : Text) (ds xs : List Text) → member e (insert_all ds xs) ≡ (member e ds || member e xs)
unfolding insert_all member
insert_all-member e [] xs = refl
insert_all-member e (d ∷ ds) xs =
    ground (arith, insert_all-member e ds (insert_domain d xs), insert-member e d xs)

pub member-append :
    (e : Text) (xs ys : List Text) → member e (xs ++ ys) ≡ (member e xs || member e ys)
unfolding member
member-append e [] ys = refl
member-append e (x ∷ xs) ys = ground (arith, member-append e xs ys)
