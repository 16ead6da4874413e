-- ===== src/World/Monad.antt =====
-- Asynchronous functions that may throw: what was written before a throw stays written, so the
-- state comes back beside the error too. An action runs at one moment of the clock, and no other
-- request runs between its awaits.
use hashira_be_railway_deplo.Base.{
  arith, ℕ, ◌+◌, ◌≡◌, refl, ◌⊎◌, inl, inr, Bool, Option, none, some, if◌then◌else◌,
}
use hashira_be_railway_deplo.Types.{Error, Result, ok, err}
use hashira_be_railway_deplo.World.{World, Database}

abbrev pub App : Type 0 → Type 0
App A = World → Result A × World

module _ {A : Type 0} where
  abbrev pub pure : A → App A
  pure a w = (ok a, w)

  -- `throw e`
  abbrev pub throw : Error → App A
  throw e w = (err e, w)

  abbrev pub gets : (World → A) → App A
  gets f w = (ok (f w), w)

  abbrev pub or_throw : Option A → Error → App A
  or_throw none e = throw e
  or_throw (some a) e = pure a

  abbrev pub from_result : Result A → App A
  from_result r w = (r, w)

  -- A call whose result comes from outside.
  abbrev pub draw : (ℕ → A) → App A
  draw f w = (ok (f w.calls), record w { calls = w.calls + 1 })

  -- AppDataSource.transaction: a throw rolls the database back.
  abbrev pub transaction : App A → App A
  transaction m w =
      let (r, w') = m w in elim r [ ok a ↦ (ok a, w') | err e ↦ (err e, record w' { db = w.db }) ]

infixl 5 ◌>>=◌ ◌>>◌
abbrev pub ◌>>=◌ : {A B : Type 0} → App A → (A → App B) → App B
◌>>=◌ m f w = let (r, w') = m w in elim r [ ok a ↦ f a w' | err e ↦ (err e, w') ]

abbrev pub ◌>>◌ : {A B : Type 0} → App A → App B → App B
m >> k = m >>= λ _. k

abbrev pub throw_if : Bool → Error → App (Unit {0})
throw_if c e w = (if c then err e else ok tt, w)

abbrev pub modify : (World → World) → App (Unit {0})
modify f w = (ok tt, f w)

abbrev pub modify_db : (Database → Database) → App (Unit {0})
modify_db f w = (ok tt, record w { db = f w.db })

-- `try { m } catch (e) { h(e) }`
abbrev pub catch : {A : Type 0} → App A → (Error → App A) → App A
catch m h w = let (r, w') = m w in elim r [ ok a ↦ (ok a, w') | err e ↦ h e w' ]

-- To split on how a call ended, and keep the equation.
pub Result-cases :
    {A : Type 0} (r : Result A) → ((a : A) × (r ≡ ok a)) ⊎ ((e : Error) × (r ≡ err e))
Result-cases (ok a) = inl (a, refl)
Result-cases (err e) = inr (e, refl)

-- What holds of every end of an action, by how its first part ends.
module _ {A B : Type 0} (P : Result B × World → Type 0) (m : App A) (w : World) where
  pub >>=-cases :
      (f : A → App B)
      → ((a : A) → (m w).0 ≡ ok a → P (f a (m w).1))
      → ((e : Error) → (m w).0 ≡ err e → P (err e, (m w).1))
      → P ((m >>= f) w)
  >>=-cases f on_ok on_err = elim (Result-cases (m w).0) [
    | inl (a, done) ↦ rw (◌>>=◌, done) (on_ok a done)
    | inr (e, failed) ↦ rw (◌>>=◌, failed) (on_err e failed)
  ]

-- An action that returns has gone through each of its parts.
pub >>=-ok :
    {A B : Type 0} (m : App A) (f : A → App B) (w w' : World) (b : B)
    → (m >>= f) w ≡ (ok b, w')
    → (a : A) × (m w ≡ (ok a, (m w).1)) × (f a (m w).1 ≡ (ok b, w'))
>>=-ok m f w w' b h = elim (Result-cases (m w).0) [
  | inl (a, done) ↦ (a, ground (arith, done), ground (arith, done))
  | inr (e, failed) ↦ absurd (ground (arith, failed))
]

pub catch-cases :
    {A : Type 0} (P : Result A × World → Type 0) (m : App A) (w : World) (h : Error → App A)
    → ((a : A) → (m w).0 ≡ ok a → P (ok a, (m w).1))
    → ((e : Error) → (m w).0 ≡ err e → P (h e (m w).1))
    → P (catch m h w)
catch-cases P m w h on_ok on_err = elim (Result-cases (m w).0) [
  | inl (a, done) ↦ rw (catch, done) (on_ok a done)
  | inr (e, failed) ↦ rw (catch, failed) (on_err e failed)
]
