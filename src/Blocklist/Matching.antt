-- ===== src/Blocklist/Matching.antt =====
-- Which hosts a block list matches.
use xanh_tab.Prelude.{
  ◌+◌, ◌%◌, ◌^◌, ◌≡◌, refl, sym, ◌↔◌, ◌⊎◌, inl, inr, Bool, true, some, List, [], ◌∷◌, ◌++◌, arith,
  append_assoc, Bool-cases, if◌then◌else◌,
}
use xanh_tab.Text.{Text, split, join}
use xanh_tab.Text.Laws.{join-split, split-append, split-cons}
use xanh_tab.Blocklist.{FstSet, Blocklist, normalize_host, any_suffix, is_listed, contains}

-- `host` is `domain` or ends with a dot and `domain`.
abbrev pub IsUnder : Text → Text → Type 0
IsUnder domain host = (host ≡ domain) ⊎ ((prefix : Text) × (host ≡ prefix ++ b'.' ∷ domain))

abbrev pub SomeListed : (Text → Bool) → Text → Type 0
SomeListed set host = (domain : Text) × (set domain ≡ true) × IsUnder domain host

IsUnder-prepend :
    (domain label host : Text) → IsUnder domain host → IsUnder domain (label ++ b'.' ∷ host)
IsUnder-prepend domain label host (inl e) = inr (label, rw e)
IsUnder-prepend domain label host (inr (prefix, e)) =
    inr (label ++ b'.' ∷ prefix, rw e (sym (append_assoc label (b'.' ∷ prefix) (b'.' ∷ domain))))

any_suffix_sound :
    (set : Text → Bool) (labels : List Text)
    → any_suffix set labels ≡ true
    → SomeListed set (join (b'.' ∷ []) labels)
unfolding any_suffix join
any_suffix_sound set [] h = cc
any_suffix_sound set (label ∷ []) h = (label, ground arith, inl refl)
any_suffix_sound set (label ∷ next ∷ labels) h =
    elim (Bool-cases (set (join (b'.' ∷ []) (label ∷ next ∷ labels)))) [
      | inl here ↦ (_, here, inl refl)
      | inr not_here ↦
          let (domain, listed, under) = any_suffix_sound set (next ∷ labels) (ground arith) in
          (domain, listed, IsUnder-prepend domain label _ under)
    ]

any_suffix-head :
    (set : Text → Bool) (label : Text) (labels : List Text)
    → set (join (b'.' ∷ []) (label ∷ labels)) ≡ true
    → any_suffix set (label ∷ labels) ≡ true
unfolding any_suffix
any_suffix-head set label labels h = rw h

any_suffix-append :
    (set : Text → Bool) (xs ys : List Text)
    → any_suffix set ys ≡ true
    → any_suffix set (xs ++ ys) ≡ true
unfolding any_suffix
any_suffix-append set [] ys h = h
any_suffix-append set (x ∷ xs) ys h = ground (arith, any_suffix-append set xs ys h)

-- A suffix that is listed is found among the labels.
any_suffix_self :
    (set : Text → Bool) (host : Text) → set host ≡ true → any_suffix set (split b'.' host) ≡ true
any_suffix_self set host h =
    let (piece, pieces, e) = split-cons b'.' host in
    let whole : set (join (b'.' ∷ []) (piece ∷ pieces)) ≡ true =
      rw (← e) (rw (join-split b'.' host) h) in
    rw e (any_suffix-head set piece pieces whole)

any_suffix_complete :
    (set : Text → Bool) (host domain : Text)
    → set domain ≡ true
    → IsUnder domain host
    → any_suffix set (split b'.' host) ≡ true
any_suffix_complete set host domain h (inl e) = rw e (any_suffix_self set domain h)
any_suffix_complete set host domain h (inr (prefix, e)) =
    rw (e, split-append b'.' prefix domain)
      (any_suffix-append set (split b'.' prefix) (split b'.' domain) (any_suffix_self set domain h))

-- A host is listed exactly when it, in lower case and without dots at its end, is a domain of the
-- set or ends with a dot and a domain of the set.
pub is_listed_iff :
    (set : FstSet) (host : Text)
    → (is_listed (some set) host ≡ true) ↔ SomeListed set.contains (normalize_host host)
unfolding is_listed
is_listed_iff set host = (
  (λ h. rw (join-split b'.' (normalize_host host)) at (any_suffix_sound set.contains _ h)),
  (λ (domain, h, under). any_suffix_complete set.contains _ domain h under),
)

-- Every lookup answers by the list, and counts exactly the lookups that it answers with yes; the
-- set stays as it is.
pub contains_lem :
    (b : Blocklist) (host : Text)
    → ((contains b host).0 ≡ is_listed b.set host)
      × ((contains b host).1.set ≡ b.set)
      × ((contains b host).1.hits
          ≡ (if is_listed b.set host then (b.hits + 1) % 2 ^ 64 else b.hits))
unfolding contains
contains_lem b host = ground arith
