-- ===== src/Samples/Rows.antt =====
-- A database that answers with the first fitting row, and the proof that it keeps the laws of
-- `Query`.
use mathlib.Core.List.{Perm}
use mathlib.Core.List.Perm
use mathlib.Core.Path.{subst}
use native.Mathlib.Nat.{le_trans}
use hashira_be_railway_deplo.Base.{
  ℕ, ◌≤◌, ◌≡◌, refl, sym, inl, inr, Bool, true, false, Option, none, some, List, [], ◌∷◌, Memᴰ, All,
  All-impl, Bool-cases, Option-cases, leb, leb→le, ltb, ltb→lt, if◌then◌else◌, arith,
}
use hashira_be_railway_deplo.Platform.Rows.{Query, IsOrdered}

module _ {E : Type 0} where
  unfoldable pub find_first : (E → Bool) → List E → Option E
  find_first fits [] = none
  find_first fits (e ∷ rows) = if fits e then some e else find_first fits rows

  pub find_first_sound :
      (fits : E → Bool) (rows : List E) (e : E)
      → find_first fits rows ≡ some e
      → Memᴰ e rows × (fits e ≡ true)
  unfolding find_first
  find_first_sound fits [] e h = absurd (ground arith)
  find_first_sound fits (x ∷ rows) e h = elim (Bool-cases (fits x)) [
    | inl hit ↦ (Memᴰ.head (ground arith), ground arith)
    | inr miss ↦
        let (listed, fit) = find_first_sound fits rows e (ground arith) in (Memᴰ.tail listed, fit)
  ]

  pub find_first_complete :
      (fits : E → Bool) (rows : List E)
      → find_first fits rows ≡ none
      → All (λ e. fits e ≡ false) rows
  unfolding find_first
  find_first_complete fits [] h = tt
  find_first_complete fits (x ∷ rows) h =
      (ground arith, find_first_complete fits rows (ground arith))

  -- The fitting row with the greatest key, the first of equals.
  better : (E → ℕ) → E → Option E → E
  better key e none = e
  better key e (some o) = if ltb (key e) (key o) then o else e

  unfoldable pub find_greatest : (E → ℕ) → (E → Bool) → List E → Option E
  unfolding better
  find_greatest key fits [] = none
  find_greatest key fits (e ∷ rows) =
      let rest = find_greatest key fits rows in if fits e then some (better key e rest) else rest

  pub find_greatest_complete :
      (key : E → ℕ) (fits : E → Bool) (rows : List E)
      → find_greatest key fits rows ≡ none
      → All (λ e. fits e ≡ false) rows
  unfolding find_greatest
  find_greatest_complete key fits [] h = tt
  find_greatest_complete key fits (x ∷ rows) h =
      (ground arith, find_greatest_complete key fits rows (ground arith))

  -- `e` is listed and fits, and no fitting row has a greater key.
  abbrev IsGreatest : (E → ℕ) → (E → Bool) → List E → E → Type 0
  IsGreatest key fits rows e =
      Memᴰ e rows × (fits e ≡ true) × All (λ o. fits o ≡ true → key o ≤ key e) rows

  pub find_greatest_sound :
      (key : E → ℕ) (fits : E → Bool) (rows : List E) (e : E)
      → find_greatest key fits rows ≡ some e
      → Memᴰ e rows × (fits e ≡ true) × All (λ o. fits o ≡ true → key o ≤ key e) rows
  unfolding find_greatest better
  find_greatest_sound key fits [] e h = absurd (ground arith)
  find_greatest_sound key fits (x ∷ rows) e h = elim (Bool-cases (fits x)) [
    | inr miss ↦
        let (listed, fit, most) = find_greatest_sound key fits rows e (ground arith) in
        (Memᴰ.tail listed, fit, ((λ hit. absurd (ground arith)), most))
    | inl hit ↦ elim (Option-cases (find_greatest key fits rows)) [
      | inl missed ↦
          let same : e ≡ x = ground arith in
          (
            Memᴰ.head same,
            ground arith,
            (
              (λ _. ground arith),
              All-impl (λ o. fits o ≡ false) (λ o. fits o ≡ true → key o ≤ key e) rows
                  (λ o no hits. absurd (ground arith))
                  (find_greatest_complete key fits rows missed),
            ),
          )
      | inr (o, found) ↦
          let (listed, fit, most) = find_greatest_sound key fits rows o found in
          elim (Bool-cases (ltb (key x) (key o))) [
            | inl less ↦
                let same : e ≡ o = ground arith in
                subst (IsGreatest key fits (x ∷ rows)) (sym same)
                  (Memᴰ.tail listed, fit, ((λ _. omega (arith, ltb→lt _ _ less)), most))
            | inr more ↦
                let same : e ≡ x = ground arith in
                let above : key o ≤ key x = ground arith in
                subst (IsGreatest key fits (x ∷ rows)) (sym same) (
                  Memᴰ.head refl,
                  hit,
                  (
                    (λ _. omega arith),
                    All-impl (λ r. fits r ≡ true → key r ≤ key o)
                        (λ r. fits r ≡ true → key r ≤ key x) rows
                        (λ r below fit_r. le_trans (below fit_r) above) most,
                  ),
                )
          ]
    ]
  ]

-- Insertion by a Boolean order.
module _ {E : Type 0} (before : E → E → Bool) where
  insert : E → List E → List E
  insert e [] = e ∷ []
  insert e (x ∷ rows) = if before e x then e ∷ x ∷ rows else x ∷ insert e rows

  unfoldable pub sort : List E → List E
  unfolding insert
  sort [] = []
  sort (e ∷ rows) = insert e (sort rows)

  insert-perm : (e : E) (rows : List E) → Perm (insert e rows) (e ∷ rows)
  unfolding insert
  insert-perm e [] = Perm.refl _
  insert-perm e (x ∷ rows) = elim (Bool-cases (before e x)) [
    | inl first ↦ rw first (Perm.refl _)
    | inr later ↦ rw later (Perm.trans (Perm.cons x (insert-perm e rows)) (Perm.swap e x rows))
  ]

  pub sort-perm : (rows : List E) → Perm (sort rows) rows
  unfolding sort
  sort-perm [] = Perm.refl []
  sort-perm (e ∷ rows) = Perm.trans (insert-perm e (sort rows)) (Perm.cons e (sort-perm rows))

  module _ (R : E → E → Type 0) (yields : (a b : E) → before a b ≡ true → R a b)
      (flips : (a b : E) → before a b ≡ false → R b a)
      (chains : (a b c : E) → R a b → R b c → R a c) where
    insert-All : (P : E → Type 0) (e : E) (rows : List E) → P e → All P rows → All P (insert e rows)
    unfolding insert
    insert-All P e [] h hs = (h, tt)
    insert-All P e (x ∷ rows) h hs = elim (Bool-cases (before e x)) [
      | inl first ↦ rw first (h, hs)
      | inr later ↦ rw later (hs.0, insert-All P e rows h hs.1)
    ]

    insert-IsOrdered : (e : E) (rows : List E) → IsOrdered R rows → IsOrdered R (insert e rows)
    unfolding insert
    insert-IsOrdered e [] h = (tt, tt)
    insert-IsOrdered e (x ∷ rows) h = elim (Bool-cases (before e x)) [
      | inl first ↦
          let ahead = yields e x first in
          rw first ((ahead, All-impl (R x) (R e) rows (λ o r. chains e x o ahead r) h.0), h)
      | inr later ↦
          rw later (insert-All (R x) e rows (flips e x later) h.0, insert-IsOrdered e rows h.1)
    ]

    pub sort-IsOrdered : (rows : List E) → IsOrdered R (sort rows)
    unfolding sort
    sort-IsOrdered [] = tt
    sort-IsOrdered (e ∷ rows) = insert-IsOrdered e (sort rows) (sort-IsOrdered rows)

module _ {E : Type 0} (key : E → ℕ) (rows : List E) where
  pub desc-IsOrdered : IsOrdered (λ a b. key b ≤ key a) (sort (λ a b. leb (key b) (key a)) rows)
  desc-IsOrdered =
      sort-IsOrdered (λ a b. leb (key b) (key a)) (λ a b. key b ≤ key a) (λ a b h. leb→le _ _ h)
        (λ a b h. ground arith) (λ a b c h k. le_trans k h) rows

  pub asc-IsOrdered : IsOrdered (λ a b. key a ≤ key b) (sort (λ a b. leb (key a) (key b)) rows)
  asc-IsOrdered =
      sort-IsOrdered (λ a b. leb (key a) (key b)) (λ a b. key a ≤ key b) (λ a b h. leb→le _ _ h)
        (λ a b h. ground arith) (λ a b c h k. le_trans h k) rows

abbrev pub first_row : Query
first_row = record {
  find_one = find_first;
  find_one-sound = find_first_sound;
  find_one-complete = find_first_complete;
  find_latest = find_greatest;
  find_latest-sound = find_greatest_sound;
  find_latest-complete = find_greatest_complete;
  order_desc = λ key. sort (λ a b. leb (key b) (key a));
  order_desc-perm = λ key. sort-perm (λ a b. leb (key b) (key a));
  order_desc-sorted = desc-IsOrdered;
  order_asc = λ key. sort (λ a b. leb (key a) (key b));
  order_asc-perm = λ key. sort-perm (λ a b. leb (key a) (key b));
  order_asc-sorted = asc-IsOrdered;
}
