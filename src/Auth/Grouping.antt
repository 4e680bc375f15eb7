-- ===== src/Auth/Grouping.antt =====
-- src/auth.rs: `group_manual_code` loses nothing.
use xanh_tab.Prelude.{
  ℕ, ◌≡◌, ◌≤◌, refl, sym, append-nil, false, List, [], ◌∷◌, ◌++◌, ◌==◌, arith, any, length,
  if◌then◌else◌, zero, suc, All,
}
use xanh_tab.Text.{Text, codes, join}
use xanh_tab.Auth.State.{Auth}
use xanh_tab.Auth.Pairing.{chunks4, group_manual_code}

-- A text without its dashes.
unfoldable pub without_dashes : Text → Text
without_dashes [] = []
without_dashes (c ∷ s) = let rest = without_dashes s in if c == b'-' then rest else c ∷ rest

dashless : (s : Text) → any (λ c. c == b'-') s ≡ false → without_dashes s ≡ s
unfolding without_dashes
dashless [] h = refl
dashless (c ∷ s) h = ground (arith, dashless s)

without-append : (s t : Text) → without_dashes (s ++ t) ≡ without_dashes s ++ without_dashes t
unfolding without_dashes
without-append [] t = refl
without-append (c ∷ s) t = ground (arith, without-append s t)

join-without :
    (piece : Text) (pieces : List Text)
    → without_dashes (join (codes "-") (piece ∷ pieces))
      ≡ without_dashes piece ++ without_dashes (join (codes "-") pieces)
unfolding join without_dashes
join-without piece [] = sym (append-nil (without_dashes piece))
join-without piece (next ∷ pieces) =
    without-append piece (codes "-" ++ join (codes "-") (next ∷ pieces))

-- One round takes four characters, or what is left.
chunks-join :
    (fuel : ℕ) (s : Text)
    → length s ≤ fuel
    → any (λ c. c == b'-') s ≡ false
    → without_dashes (join (codes "-") (chunks4 fuel s)) ≡ s
unfolding chunks4 join without_dashes
chunks-join zero [] low h = refl
chunks-join zero (a ∷ s) low h = ground arith
chunks-join (suc fuel) [] low h = refl
chunks-join (suc fuel) (a ∷ []) low h = ground arith
chunks-join (suc fuel) (a ∷ b ∷ []) low h = ground arith
chunks-join (suc fuel) (a ∷ b ∷ c ∷ []) low h = ground arith
chunks-join (suc fuel) (a ∷ b ∷ c ∷ d ∷ s) low h =
    ground (arith, join-without (a ∷ b ∷ c ∷ d ∷ []) (chunks4 fuel s), chunks-join fuel s)

pieces_are_short : (fuel : ℕ) (s : Text) → All (λ piece. length piece ≤ 4) (chunks4 fuel s)
unfolding chunks4
pieces_are_short zero s = tt
pieces_are_short (suc fuel) [] = tt
pieces_are_short (suc fuel) (a ∷ []) = (omega arith, tt)
pieces_are_short (suc fuel) (a ∷ b ∷ []) = (omega arith, tt)
pieces_are_short (suc fuel) (a ∷ b ∷ c ∷ []) = (omega arith, tt)
pieces_are_short (suc fuel) (a ∷ b ∷ c ∷ d ∷ s) = (omega arith, pieces_are_short fuel s)

-- The rounds that the grouping of a manual code is given are enough: without its dashes the code is
-- the whole encoding, if that has none, and no group has more than four characters.
pub group_manual_code_loses_nothing :
    (auth : Auth) (bytes : List ℕ)
    → any (λ c. c == b'-') (auth.encode_base32 bytes) ≡ false
    → let encoded = auth.encode_base32 bytes in
      (without_dashes (group_manual_code auth bytes) ≡ encoded)
      × (group_manual_code auth bytes ≡ join (codes "-") (chunks4 (length encoded) encoded))
      × All (λ piece. length piece ≤ 4) (chunks4 (length encoded) encoded)
unfolding group_manual_code
group_manual_code_loses_nothing auth bytes h =
    let encoded = auth.encode_base32 bytes in
    (
      chunks-join (length encoded) encoded (omega arith) h,
      refl,
      pieces_are_short (length encoded) encoded,
    )
