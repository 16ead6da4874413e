-- ===== src/Platform/Rows.antt =====
-- The row that `findOne` returns where several fit is PostgreSQL's choice: these are the laws of a
-- SELECT with LIMIT 1, without and with ORDER BY.
use mathlib.Core.List.{Perm}
use hashira_be_railway_deplo.Base.{
  ℕ, ◌≤◌, ◌≡◌, Bool, true, false, Option, some, none, List, [], ◌∷◌, Memᴰ, All,
}

-- Every row stands in the relation to every later one.
abbrev pub IsOrdered : {E : Type 0} → (E → E → Type 0) → List E → Type 0
IsOrdered R [] = Unit
IsOrdered R (e ∷ rows) = All (R e) rows × IsOrdered R rows

pub record Query : Type 1 where
  -- findOne({ where })
  pub find_one : {E : Type 0} → (E → Bool) → List E → Option E
  pub find_one-sound :
      {E : Type 0} (fits : E → Bool) (rows : List E) (e : E)
      → find_one fits rows ≡ some e
      → Memᴰ e rows × (fits e ≡ true)
  pub find_one-complete :
      {E : Type 0} (fits : E → Bool) (rows : List E)
      → find_one fits rows ≡ none
      → All (λ e. fits e ≡ false) rows
  -- findOne({ where, order: { key: 'DESC' } })
  pub find_latest : {E : Type 0} → (E → ℕ) → (E → Bool) → List E → Option E
  pub find_latest-sound :
      {E : Type 0} (key : E → ℕ) (fits : E → Bool) (rows : List E) (e : E)
      → find_latest key fits rows ≡ some e
      → Memᴰ e rows × (fits e ≡ true) × All (λ o. fits o ≡ true → key o ≤ key e) rows
  pub find_latest-complete :
      {E : Type 0} (key : E → ℕ) (fits : E → Bool) (rows : List E)
      → find_latest key fits rows ≡ none
      → All (λ e. fits e ≡ false) rows
  -- ORDER BY key DESC, and ASC
  pub order_desc : {E : Type 0} → (E → ℕ) → List E → List E
  pub order_desc-perm : {E : Type 0} (key : E → ℕ) (rows : List E) → Perm (order_desc key rows) rows
  pub order_desc-sorted :
      {E : Type 0} (key : E → ℕ) (rows : List E)
      → IsOrdered (λ a b. key b ≤ key a) (order_desc key rows)
  pub order_asc : {E : Type 0} → (E → ℕ) → List E → List E
  pub order_asc-perm : {E : Type 0} (key : E → ℕ) (rows : List E) → Perm (order_asc key rows) rows
  pub order_asc-sorted :
      {E : Type 0} (key : E → ℕ) (rows : List E)
      → IsOrdered (λ a b. key a ≤ key b) (order_asc key rows)
