-- ===== src/Base/Split.antt =====
-- `s.split(c)` takes apart what was joined by `c`, and hexadecimal text has no other signs in it.
use hashira_be_railway_deplo.Base.{
  ℕ, ◌<◌, ◌/◌, ◌%◌, ◌≡◌, refl, ap, ◌∙◌, false, List, [], ◌∷◌, ◌++◌, Text, All, ◌==◌, ==_refl, arith,
}
use hashira_be_railway_deplo.Base.Strings.{split, split_from}
use hashira_be_railway_deplo.Base.Hex.{hex_digit, hex_encode}
use mathlib.Core.List.{reverse_aux}

-- The unit `c` does not occur.
abbrev pub Without : ℕ → Text → Type 0
Without c = All (λ d. (c == d) ≡ false)

split_from-append :
    (c : ℕ) (before xs s : Text)
    → Without c xs
    → split_from c before (xs ++ c ∷ s) ≡ reverse_aux before xs ∷ split_from c [] s
unfolding split_from
split_from-append c before [] s h = ground (arith, ==_refl c)
split_from-append c before (x ∷ xs) s h =
    ground (arith, h.0, split_from-append c (x ∷ before) xs s h.1)

split_from-last :
    (c : ℕ) (before xs : Text) → Without c xs → split_from c before xs ≡ reverse_aux before xs ∷ []
unfolding split_from
split_from-last c before [] h = refl
split_from-last c before (x ∷ xs) h = ground (arith, h.0, split_from-last c (x ∷ before) xs h.1)

hex_digit-Without : (n : ℕ) → n < 16 → (b':' == hex_digit n) ≡ false
unfolding hex_digit
hex_digit-Without n h = ground arith

pub hex_encode-Without : (bs : List ℕ) → All (λ b. b < 256) bs → Without b':' (hex_encode bs)
unfolding hex_encode
hex_encode-Without [] h = tt
hex_encode-Without (b ∷ bs) h = (
  hex_digit-Without (b / 16) (omega (arith, h.0)),
  (hex_digit-Without (b % 16) (omega arith), hex_encode-Without bs h.1),
)

-- Three pieces joined by a unit that none of them has.
pub split-join_three :
    (c : ℕ) (x y z : Text)
    → Without c x
    → Without c y
    → Without c z
    → split c (x ++ (c ∷ (y ++ (c ∷ z)))) ≡ x ∷ y ∷ z ∷ []
unfolding split
split-join_three c x y z hx hy hz =
    split_from-append c [] x (y ++ (c ∷ z)) hx
    ∙ ap (λ l. x ∷ l) (split_from-append c [] y z hy ∙ ap (λ l. y ∷ l) (split_from-last c [] z hz))
