-- ===== src/Canonical/Order.antt =====
-- The order in which Array.prototype.sort puts strings, by UTF-16 code units, and sorting by it.
use hashira_be_railway_deplo.Base.{
  ◌≡◌, refl, Bool, true, false, List, [], ◌∷◌, Text, ltb, ◌==◌, if◌then◌else◌, arith,
}

unfoldable pub text_leb : Text → Text → Bool
text_leb [] t = true
text_leb (a ∷ s) [] = false
text_leb (a ∷ s) (b ∷ t) = if a == b then text_leb s t else ltb a b

unfoldable pub insert_name : Text → List Text → List Text
insert_name n [] = n ∷ []
insert_name n (m ∷ ms) = if text_leb n m then n ∷ m ∷ ms else m ∷ insert_name n ms

-- `keys.sort()`
unfoldable pub sort_names : List Text → List Text
unfolding insert_name
sort_names [] = []
sort_names (n ∷ ns) = insert_name n (sort_names ns)

pub text_leb_total : (s t : Text) → text_leb s t ≡ false → text_leb t s ≡ true
unfolding text_leb
text_leb_total [] t h = absurd (ground arith)
text_leb_total (a ∷ s) [] h = refl
text_leb_total (a ∷ s) (b ∷ t) h = ground (arith, text_leb_total s t)

pub text_leb_antisym : (s t : Text) → text_leb s t ≡ true → text_leb t s ≡ true → s ≡ t
unfolding text_leb
text_leb_antisym [] [] h k = refl
text_leb_antisym [] (b ∷ t) h k = absurd (ground arith)
text_leb_antisym (a ∷ s) [] h k = absurd (ground arith)
text_leb_antisym (a ∷ s) (b ∷ t) h k = ground (arith, text_leb_antisym s t)

pub text_leb_trans :
    (r s t : Text) → text_leb r s ≡ true → text_leb s t ≡ true → text_leb r t ≡ true
unfolding text_leb
text_leb_trans [] s t h k = refl
text_leb_trans (a ∷ r) [] t h k = absurd (ground arith)
text_leb_trans (a ∷ r) (b ∷ s) [] h k = absurd (ground arith)
text_leb_trans (a ∷ r) (b ∷ s) (c ∷ t) h k = ground (arith, text_leb_trans r s t)

-- The order of insertion does not matter.
pub insert_name_comm :
    (m n : Text) (l : List Text) → insert_name m (insert_name n l) ≡ insert_name n (insert_name m l)
unfolding insert_name
insert_name_comm m n [] = ground (arith, text_leb_total m n, text_leb_antisym m n)
insert_name_comm m n (k ∷ l) = ground (
  arith,
  text_leb_total m n,
  text_leb_antisym m n,
  text_leb_total m k,
  text_leb_total n k,
  text_leb_trans m n k,
  text_leb_trans n m k,
  insert_name_comm m n l,
)
