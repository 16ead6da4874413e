-- ===== src/Repositories/Sql.antt =====
-- What UPDATE, COUNT and the check of a unique column do to the rows of a table.
use hashira_be_railway_deplo.Base.{
  ℕ, Bool, false, Option, none, some, List, map, Text, text_eq, length, keep, if◌then◌else◌, str,
  ◌==◌,
}
use hashira_be_railway_deplo.Types.{Error, other_error}

module _ {E : Type 0} where
  abbrev pub update_where : (E → Bool) → (E → E) → List E → List E
  update_where fits change = map (λ e. if fits e then change e else e)

  abbrev pub count_where : (E → Bool) → List E → ℕ
  count_where fits rows = length (keep fits rows)

-- A nullable text column against a nullable value; NULL is unequal to everything.
unfoldable pub same_text : Option Text → Option Text → Bool
same_text (some a) (some b) = text_eq a b
same_text _ _ = false

unfoldable pub same_uuid : Option ℕ → ℕ → Bool
same_uuid none b = false
same_uuid (some a) b = a == b

-- QueryFailedError of a violated unique constraint, which is no `AppError`.
abbrev pub unique_violation : Error
unique_violation = other_error (str "duplicate key value violates unique constraint")
