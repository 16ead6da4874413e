-- ===== src/Repositories/Rows.antt =====
-- What updates, lookups and unique columns keep true of the rows of a table.
use hashira_be_railway_deplo.Base.{
  ◌≡◌, refl, ◌≢◌, ◌∙◌, sym, ap, inl, inr, Bool, true, false, none, some, List, [], ◌∷◌, ◌++◌, Memᴰ,
  All, All-append, All-impl, Option-cases, Text, text_eq, text_eq_iff, any, if◌then◌else◌, arith, ℕ,
}
use hashira_be_railway_deplo.Platform.Rows.{Query}
use hashira_be_railway_deplo.Repositories.Sql.{update_where}

module _ {E : Type 0} where
  -- What holds of every row holds after an update that keeps it.
  pub All-update_where :
      (P : E → Type 0) (fits : E → Bool) (change : E → E) (rows : List E)
      → ((e : E) → P e → fits e ≡ true → P (change e))
      → All P rows
      → All P (update_where fits change rows)
  All-update_where P fits change [] step h = tt
  All-update_where P fits change (e ∷ rows) step h =
      (ground (arith, step e h.0), All-update_where P fits change rows step h.1)

  -- A predicate after the update, from a fact about each row before it.
  pub All-update_where_rows :
      (Q P : E → Type 0) (fits : E → Bool) (change : E → E) (rows : List E)
      → ((e : E) → Q e → fits e ≡ true → P (change e))
      → ((e : E) → Q e → fits e ≡ false → P e)
      → All Q rows
      → All P (update_where fits change rows)
  All-update_where_rows Q P fits change [] hit miss h = tt
  All-update_where_rows Q P fits change (e ∷ rows) hit miss h = (
    ground (arith, hit e h.0, miss e h.0),
    All-update_where_rows Q P fits change rows hit miss h.1,
  )

  pub All-update_where_every :
      (P : E → Type 0) (fits : E → Bool) (change : E → E) (rows : List E)
      → ((e : E) → fits e ≡ true → P (change e))
      → ((e : E) → fits e ≡ false → P e)
      → All P (update_where fits change rows)
  All-update_where_every P fits change [] hit miss = tt
  All-update_where_every P fits change (e ∷ rows) hit miss =
      (ground (arith, hit e, miss e), All-update_where_every P fits change rows hit miss)

  pub All-mem : (P : E → Type 0) {e : E} {rows : List E} → All P rows → Memᴰ e rows → P e
  All-mem P {rows = []} h m = elim m [ ]
  All-mem P {rows = x ∷ rows} h (Memᴰ.head same) = ground arith
  All-mem P {rows = x ∷ rows} h (Memᴰ.tail m) = All-mem P h.1 m

-- A predicate that fails at every row finds nothing.
pub find_one-none_of_All :
    {E : Type 0} (q : Query) (fits : E → Bool) (rows : List E)
    → All (λ e. fits e ≡ false) rows
    → q.find_one fits rows ≡ none
find_one-none_of_All q fits rows h = elim (Option-cases (q.find_one fits rows)) [
  | inl missed ↦ missed
  | inr (e, found) ↦
      let (listed, fit) = q.find_one-sound fits rows e found in
      cc (All-mem (λ e. fits e ≡ false) h listed)
]

pub find_latest-none_of_All :
    {E : Type 0} (q : Query) (key : E → ℕ) (fits : E → Bool) (rows : List E)
    → All (λ e. fits e ≡ false) rows
    → q.find_latest key fits rows ≡ none
find_latest-none_of_All q key fits rows h = elim (Option-cases (q.find_latest key fits rows)) [
  | inl missed ↦ missed
  | inr (e, found) ↦
      let (listed, fit, _) = q.find_latest-sound key fits rows e found in
      cc (All-mem (λ e. fits e ≡ false) h listed)
]

pub Memᴰ-last : {E : Type 0} (rows : List E) (e : E) → Memᴰ e (rows ++ e ∷ [])
Memᴰ-last [] e = Memᴰ.head refl
Memᴰ-last (x ∷ rows) e = Memᴰ.tail (Memᴰ-last rows e)

-- A row that fits is there after an update, changed.
pub Memᴰ-update_where :
    {E : Type 0} (fits : E → Bool) (change : E → E) (rows : List E) (e : E)
    → Memᴰ e rows
    → fits e ≡ true
    → Memᴰ (change e) (update_where fits change rows)
Memᴰ-update_where fits change [] e m fit = elim m [ ]
Memᴰ-update_where fits change (x ∷ rows) e (Memᴰ.head same) fit = Memᴰ.head (ground arith)
Memᴰ-update_where fits change (x ∷ rows) e (Memᴰ.tail m) fit =
    Memᴰ.tail (Memᴰ-update_where fits change rows e m fit)

-- A row that is appended where no row fits is the one that is found.
pub find_one-append :
    {E : Type 0} (q : Query) (fits : E → Bool) (rows : List E) (e : E)
    → All (λ o. fits o ≡ false) rows
    → fits e ≡ true
    → q.find_one fits (rows ++ e ∷ []) ≡ some e
find_one-append q fits rows e none_fits fit =
    elim (Option-cases (q.find_one fits (rows ++ e ∷ []))) [
      | inl missed ↦
          let fails =
            All-mem (λ o. fits o ≡ false) (q.find_one-complete fits (rows ++ e ∷ []) missed)
              (Memᴰ-last rows e) in
          ground arith
      | inr (o, found) ↦
          let (listed, hit) = q.find_one-sound fits (rows ++ e ∷ []) o found in
          let only =
            All-append (λ o. fits o ≡ true → o ≡ e) rows (e ∷ [])
              (All-impl (λ o. fits o ≡ false) (λ o. fits o ≡ true → o ≡ e) rows
                (λ o fails yes. absurd (ground arith)) none_fits)
              ((λ _. refl), tt) in
          found ∙ ap some (All-mem (λ o. fits o ≡ true → o ≡ e) only listed hit)
    ]

-- A unique column: no two rows share its value.
module _ {E K : Type 0} (key : E → K) where
  abbrev pub Distinct : List E → Type 0
  Distinct [] = Unit
  Distinct (e ∷ rows) = All (λ o. key e ≢ key o) rows × Distinct rows

  pub Distinct-mem :
      (rows : List E) (e : E) → Distinct rows → Memᴰ e rows → All (λ o. key o ≡ key e → o ≡ e) rows
  Distinct-mem [] e d m = tt
  Distinct-mem (x ∷ rows) e d (Memᴰ.head same) = (
    λ _. sym same,
    All-impl (λ o. key x ≢ key o) (λ o. key o ≡ key e → o ≡ e) rows
        (λ o ne eq. absurd (ne (ap key (sym same) ∙ sym eq))) d.0,
  )
  Distinct-mem (x ∷ rows) e d (Memᴰ.tail m) =
      (λ eq. absurd (All-mem (λ o. key x ≢ key o) d.0 m eq), Distinct-mem rows e d.1 m)

  pub Distinct-append :
      (rows : List E) (e : E)
      → Distinct rows
      → All (λ o. key o ≢ key e) rows
      → Distinct (rows ++ e ∷ [])
  Distinct-append [] e d h = (tt, tt)
  Distinct-append (x ∷ rows) e d h =
      (All-append (λ o. key x ≢ key o) rows (e ∷ []) d.0 (h.0, tt), Distinct-append rows e d.1 h.1)

  pub All-key-update_where :
      (P : K → Type 0) (fits : E → Bool) (change : E → E) (rows : List E)
      → ((e : E) → key (change e) ≡ key e)
      → All (λ o. P (key o)) rows
      → All (λ o. P (key o)) (update_where fits change rows)
  All-key-update_where P fits change rows same =
      All-update_where (λ o. P (key o)) fits change rows (λ e h _. rw (same e) h)

  key-update_row :
      (fits : E → Bool) (change : E → E) (e : E)
      → key (change e) ≡ key e
      → key (if fits e then change e else e) ≡ key e
  key-update_row fits change e same = ground arith

  pub All-key_of_update_where :
      (P : K → Type 0) (fits : E → Bool) (change : E → E) (rows : List E)
      → ((e : E) → key (change e) ≡ key e)
      → All (λ o. P (key o)) (update_where fits change rows)
      → All (λ o. P (key o)) rows
  All-key_of_update_where P fits change [] same h = tt
  All-key_of_update_where P fits change (x ∷ rows) same h = (
    rw (key-update_row fits change x (same x)) at h.0,
    All-key_of_update_where P fits change rows same h.1,
  )

  pub Distinct-update_where :
      (fits : E → Bool) (change : E → E) (rows : List E)
      → ((e : E) → key (change e) ≡ key e)
      → Distinct rows
      → Distinct (update_where fits change rows)
  Distinct-update_where fits change [] same d = tt
  Distinct-update_where fits change (x ∷ rows) same d = (
    rw (key-update_row fits change x (same x))
        (All-key-update_where (λ k. key x ≢ k) fits change rows same d.0),
    Distinct-update_where fits change rows same d.1,
  )

-- The check of a unique text column: no row has the value.
pub All-ne_of_any :
    {E : Type 0} (key : E → Text) (value : Text) (rows : List E)
    → any (λ o. text_eq (key o) value) rows ≡ false
    → All (λ o. key o ≢ value) rows
unfolding any
All-ne_of_any key value [] h = tt
All-ne_of_any key value (x ∷ rows) h =
    (ground (arith, text_eq_iff (key x) value), All-ne_of_any key value rows (ground arith))
