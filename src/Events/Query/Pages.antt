-- ===== src/Events/Query/Pages.antt =====
-- Which events a page of a listing shows.
use mathlib.Core.Logic.{∥∥₁_map, ∥∥₁_elim}
use mathlib.Core.Bool.{Bool-set}
use mathlib.Core.List.{Mem, Perm}
use mathlib.Core.List.Perm
use hashira_be_railway_deplo.Repositories.Rows.{All-mem}
use hashira_be_railway_deplo.Base.{
  ℕ, zero, suc, ◌*◌, ◌-◌, ◌≤◌, ◌≡◌, refl, inl, inr, Bool, true, List, [], ◌∷◌, Memᴰ, All, All-impl,
  arith, take, drop, length, length-take, keep, Bool-cases, ==_iff,
}
use hashira_be_railway_deplo.Entities.{Event}
use hashira_be_railway_deplo.Platform.{Platform}
use hashira_be_railway_deplo.World.{World}
use hashira_be_railway_deplo.Repositories.Events.{
  ListEventsInput, ListEventsResult, is_listed, list_events, order_by, Sort,
}
use hashira_be_railway_deplo.Types.{ok}

All-take : {E : Type 0} (P : E → Type 0) (n : ℕ) (xs : List E) → All P xs → All P (take n xs)
All-take P zero xs h = tt
All-take P (suc n) [] h = tt
All-take P (suc n) (x ∷ xs) h = (h.0, All-take P n xs h.1)

All-drop : {E : Type 0} (P : E → Type 0) (n : ℕ) (xs : List E) → All P xs → All P (drop n xs)
All-drop P zero xs h = h
All-drop P (suc n) [] h = tt
All-drop P (suc n) (x ∷ xs) h = All-drop P n xs h.1

All-keep : {E : Type 0} (fits : E → Bool) (xs : List E) → All (λ e. fits e ≡ true) (keep fits xs)
unfolding keep
All-keep fits [] = tt
All-keep fits (x ∷ xs) = elim (Bool-cases (fits x)) [
  | inl fit ↦ rw fit (fit, All-keep fits xs)
  | inr miss ↦ rw miss (All-keep fits xs)
]

Memᴰ-keep : {E : Type 0} (fits : E → Bool) (e : E) (xs : List E) → Memᴰ e (keep fits xs) → Memᴰ e xs
unfolding keep
Memᴰ-keep fits e [] m = m
Memᴰ-keep fits e (x ∷ xs) m = elim (Bool-cases (fits x)) [
  | inl fit ↦ elim (rw fit at m) [
    | Memᴰ.head same ↦ Memᴰ.head same
    | Memᴰ.tail rest ↦ Memᴰ.tail (Memᴰ-keep fits e xs rest)
  ]
  | inr miss ↦ Memᴰ.tail (Memᴰ-keep fits e xs (rw miss at m))
]

All-of_mem : {E : Type 0} (P : E → Type 0) (xs : List E) → ((e : E) → Memᴰ e xs → P e) → All P xs
All-of_mem P [] h = tt
All-of_mem P (x ∷ xs) h = (h x (Memᴰ.head refl), All-of_mem P xs (λ e m. h e (Memᴰ.tail m)))

-- A row of a table that a filter lets through.
pub Kept : {E : Type 0} → (E → Bool) → List E → E → Type 0
Kept fits rows e = Mem e rows × (fits e ≡ true)

Kept-perm :
    {E : Type 0} (fits : E → Bool) (rows ordered : List E)
    → Perm ordered (keep fits rows)
    → All (Kept fits rows) ordered
unfolding Kept
Kept-perm fits rows ordered perm = All-of_mem (Kept fits rows) ordered λ e m.
    let kept = (Perm.mem_iff perm).0 ∣ m ∣₁ in
    (
      ∥∥₁_map kept (Memᴰ-keep fits e rows),
      ∥∥₁_elim kept (Bool-set (fits e) true)
          (λ d. All-mem (λ o. fits o ≡ true) (All-keep fits rows) d),
    )

is_listed-org :
    (input : ListEventsInput) (e : Event) → is_listed input e ≡ true → e.org_id ≡ input.org_id
unfolding is_listed
is_listed-org input e h = ground (arith, ==_iff e.org_id input.org_id)

module _ ⦃p : Platform⦄ where
  order_by-perm : (sort : Sort) (rows : List Event) → Perm (order_by sort rows) rows
  unfolding order_by
  order_by-perm Sort.asc rows = p.query.order_asc-perm (λ e. e.created_at) rows
  order_by-perm Sort.desc rows = p.query.order_desc-perm (λ e. e.created_at) rows

  -- A page of a listing: its events are rows of the table that the conditions let through, so of the
  -- organisation asked for; there are at most as many as the page holds; and the total counts
  -- every row that the conditions let through.
  pub list_events-Kept :
      (input : ListEventsInput) (r : ListEventsResult) (w w' : World)
      → list_events input w ≡ (ok r, w')
      → All (λ e. Kept (is_listed input) w.events e × (e.org_id ≡ input.org_id)) r.events
        × (length r.events ≤ input.page_size)
        × (r.total ≡ length (keep (is_listed input) w.events))
  unfolding list_events Kept
  list_events-Kept input r w w' h =
      let rows = keep (is_listed input) w.events in
      let ordered = order_by input.sort rows in
      let shown = take input.page_size (drop ((input.page - 1) * input.page_size) ordered) in
      let same : r.events ≡ shown = ground arith in
      let kept = All-take (Kept (is_listed input) w.events) input.page_size _ (
        All-drop (Kept (is_listed input) w.events) ((input.page - 1) * input.page_size) ordered
          (Kept-perm (is_listed input) w.events ordered (order_by-perm input.sort rows))) in
      rw same (
        All-impl (Kept (is_listed input) w.events)
            (λ e. Kept (is_listed input) w.events e × (e.org_id ≡ input.org_id)) shown
            (λ e k. (k, is_listed-org input e k.1)) kept,
        length-take input.page_size _,
        ground arith,
      )
