-- ===== src/Accounts/Remains.antt =====
-- Whatever admins ask for about accounts, an enabled admin remains.
use protean.Prelude.{
  ℕ, List, [], ◌∷◌, Bool, true, false, ◌≡◌, inl, inr, Option, none, some, Bool-cases, if◌then◌else◌,
  both, ◌&&◌,
}
use protean.Prelude.Effects.{Except, ok, failed, Does}
use protean.Strings.{Text}
use protean.Password.{Classes}
use protean.Accounts.{admin, User, State, find_id, same_role}
use protean.Accounts.Manager.{Crypto}
use protean.Accounts.Roles.{same_role_iff}
use protean.Accounts.Handlers.{
  users_create, users_delete, users_set_enabled, users_set_portal_access, users_reset_password,
}
use protean.Accounts.Admins.{AdminIs, IsAdmin}
use protean.Accounts.Stays.{
  users_create-Keeps, users_set_enabled-Keeps, users_set_portal_access-Keeps,
  users_reset_password-Keeps,
}
use protean.Accounts.Requests.{users_delete-Keeps}

-- a request about accounts, at a time
pub data Asked : Type 0 where
  creating : Text → Text → Text → ℕ → Asked
  deleting : ℕ → Asked
  enabling : ℕ → Bool → Asked
  opening_portal : ℕ → Bool → Asked
  resetting : ℕ → Text → ℕ → Asked

module _ (fails : ℕ → Bool) (classes : Classes) (crypto : Crypto) (known : Text → Bool)
    (decode : Text → Option Text) (removes : Text → Text → Bool) where
  -- the state after a request, which the middleware passes on for an enabled admin only
  abbrev pub is_admin : Option User → Bool
  is_admin none = false
  is_admin (some u) = same_role u.role admin && u.enabled

  abbrev pub handled : ℕ → Asked → State → State
  handled caller (creating name password role now) s =
      (users_create fails classes crypto name password role now s).1
  handled caller (deleting id) s = (users_delete fails known decode removes caller id s).1
  handled caller (enabling id on) s =
      (users_set_enabled fails known decode removes caller id on s).1
  handled caller (opening_portal id on) s = (users_set_portal_access fails id on s).1
  handled caller (resetting id password now) s =
      (users_reset_password fails classes crypto id password now s).1

  abbrev pub serve : ℕ × Asked → State → State
  serve (caller, q) s = if is_admin (find_id caller s.db.users) then handled caller q s else s

  pub serve_all : List (ℕ × Asked) → State → State
  serve_all [] s = s
  serve_all (q ∷ qs) s = serve_all qs (serve q s)

  state_after :
      {E A : Type 0} (P : State → Type 0) (r : Except E A × State)
      → Does (λ (_ : E) s'. P s') (λ (_ : A) s'. P s') r
      → P r.1
  state_after P (ok a, s) h = h.runs
  state_after P (failed e, s) h = h.runs

  handled-IsAdmin :
      (caller : ℕ) (q : Asked) (s : State)
      → IsAdmin caller s.db
      → IsAdmin caller (handled caller q s).db
  handled-IsAdmin caller (creating name password role now) s h =
      state_after (λ z. IsAdmin caller z.db) _
        (users_create-Keeps fails classes crypto known decode removes caller name password role now
          s h)
  handled-IsAdmin caller (deleting id) s h =
      state_after (λ z. IsAdmin caller z.db) _
        (users_delete-Keeps fails known decode removes caller id s h)
  handled-IsAdmin caller (enabling id on) s h =
      state_after (λ z. IsAdmin caller z.db) _
        (users_set_enabled-Keeps fails classes crypto known decode removes caller id on s h)
  handled-IsAdmin caller (opening_portal id on) s h =
      state_after (λ z. IsAdmin caller z.db) _
        (users_set_portal_access-Keeps fails classes crypto known decode removes caller id on s h)
  handled-IsAdmin caller (resetting id password now) s h =
      state_after (λ z. IsAdmin caller z.db) _
        (users_reset_password-Keeps fails classes crypto known decode removes caller id password now
          s h)

  -- Some account is an enabled admin.
  abbrev pub HasAdmin : State → Type 0
  HasAdmin s = (id : ℕ) × IsAdmin id s.db

  is_admin-AdminIs : (o : Option User) → is_admin o ≡ true → AdminIs o
  is_admin-AdminIs none h = cc
  is_admin-AdminIs (some u) h = ((same_role_iff u.role admin).0 (both h).0, (both h).1)

  serve-HasAdmin :
      (caller : ℕ) (q : Asked) (s : State) → HasAdmin s → HasAdmin (serve (caller, q) s)
  serve-HasAdmin caller q s h = elim (Bool-cases (is_admin (find_id caller s.db.users))) [
    | inl may ↦
        rw may
          (caller, handled-IsAdmin caller q s (is_admin-AdminIs (find_id caller s.db.users) may))
    | inr may_not ↦ rw may_not h
  ]

  -- Whatever queries and hosts fail: as long as only enabled admins are served, after any sequence of
  -- requests that create, delete, enable or disable accounts, open the portal or reset passwords, some
  -- account is an enabled admin, if one was before.
  pub serve_all-HasAdmin :
      (qs : List (ℕ × Asked)) (s : State) → HasAdmin s → HasAdmin (serve_all qs s)
  unfolding serve_all
  serve_all-HasAdmin [] s h = h
  serve_all-HasAdmin ((caller, q) ∷ qs) s h =
      serve_all-HasAdmin qs (serve (caller, q) s) (serve-HasAdmin caller q s h)
