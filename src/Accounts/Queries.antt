-- ===== src/Accounts/Queries.antt =====
-- What a query or a statement comes to, whether or not it fails.
use protean.Prelude.{ℕ, Bool, ◌≡◌, refl, sym, ap, ◌∙◌, Option, none, some, inl, inr, Bool-cases}
use protean.Prelude.Effects.{
  after, Runs, Runs-after, Runs-weaken, Does, from_option, from_option-Runs,
}
use protean.Accounts.{Db, State, AuthError, store_failed, not_found}
use protean.Accounts.Store.{ask, exec, written}

module _ (fails : ℕ → Bool) (F : AuthError → State → Type 0) where
  pub ask-Runs :
      {A : Type 0} (f : Db → A) (s : State)
      → ((s' : State) → s'.db ≡ s.db → F store_failed s')
      → Runs F (λ a s'. (a ≡ f s.db) × (s'.db ≡ s.db)) (ask fails f s)
  unfolding ask
  ask-Runs f s h = elim (Bool-cases (fails s.calls)) [
    | inl down ↦ rw down (h _ refl)
    | inr up ↦ rw up (refl, refl)
  ]

  -- a query for one row
  pub asked-Runs :
      {A : Type 0} (f : Db → Option A) (s : State)
      → ((e : AuthError) (s' : State) → s'.db ≡ s.db → F e s')
      → Runs F
          (λ a s'. (f s.db ≡ some a) × (s'.db ≡ s.db))
          (after (ask fails f s) (λ o. from_option o not_found))
  asked-Runs f s h =
      Runs-after F (λ a s'. (a ≡ f s.db) × (s'.db ≡ s.db))
        (λ a s'. (f s.db ≡ some a) × (s'.db ≡ s.db)) (ask fails f s) (λ o. from_option o not_found)
        (ask-Runs f s (h store_failed))
        (λ o s' asked.
          Runs-weaken F (λ a s''. (o ≡ some a) × (s'' ≡ s'))
            (λ a s''. (f s.db ≡ some a) × (s''.db ≡ s.db)) (from_option o not_found s')
            (from_option-Runs F o not_found s' (λ _. h not_found s' asked.1))
            (λ a s'' given. (sym asked.0 ∙ given.0, ap (λ x. x.db) given.1 ∙ asked.1)))

  -- a statement writes what it makes of the database
  pub exec-Runs :
      (f : Db → Option Db) (e : AuthError) (s : State)
      → ((e : AuthError) (s' : State) → s'.db ≡ s.db → F e s')
      → Runs F (λ _ s'. f s.db ≡ some s'.db) (exec fails f e s)
  unfolding exec written
  exec-Runs f e s h =
      Runs-after F (λ a s'. (a ≡ f s.db) × (s'.db ≡ s.db)) (λ _ s'. f s.db ≡ some s'.db)
        (ask fails f s) (λ o. written fails e o) (ask-Runs f s (h store_failed))
        (λ o s' asked.
          elim o
              as (λ o. o ≡ f s.db → Runs F (λ _ s'. f s.db ≡ some s'.db) (written fails e o s')) [
                | none ↦ λ _. h e s' asked.1
                | some db ↦ λ given. sym given
              ]
            asked.0)

module _ (fails : ℕ → Bool) {F : AuthError → State → Type 0} where
  pub ask-Does :
      {A : Type 0} (f : Db → A) (s : State)
      → ((s' : State) → s'.db ≡ s.db → F store_failed s')
      → Does F (λ a s'. (a ≡ f s.db) × (s'.db ≡ s.db)) (ask fails f s)
  ask-Does f s h = record { runs = ask-Runs fails F f s h }

  pub asked-Does :
      {A : Type 0} (f : Db → Option A) (s : State)
      → ((e : AuthError) (s' : State) → s'.db ≡ s.db → F e s')
      → Does F
          (λ a s'. (f s.db ≡ some a) × (s'.db ≡ s.db))
          (after (ask fails f s) (λ o. from_option o not_found))
  asked-Does f s h = record { runs = asked-Runs fails F f s h }

  pub exec-Does :
      (f : Db → Option Db) (e : AuthError) (s : State)
      → ((e : AuthError) (s' : State) → s'.db ≡ s.db → F e s')
      → Does F (λ _ s'. f s.db ≡ some s'.db) (exec fails f e s)
  exec-Does f e s h = record { runs = exec-Runs fails F f e s h }
