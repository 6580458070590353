-- ===== src/Accounts/Sessions.antt =====
-- Which sessions `Authenticate` accepts.
use protean.Prelude.{
  ℕ, List, [], ◌∷◌, Bool, true, ◌≡◌, refl, sym, ap, ◌∙◌, ◌⊎◌, inl, inr, Option, none, some,
  Bool-cases, arith, both, ltb, subst, none-some, ◌&&◌, some_inj, if_some,
}
use protean.Prelude.Effects.{
  Except, ok, failed, Runs, Runs-after, Runs-weaken, require, require-Runs, pure,
}
use protean.Strings.{Text}
use protean.Password.{Classes}
use protean.Accounts.{
  User, Session, SessionRow, Db, State, AuthError, invalid_credentials, find_id, find_session,
  live_session, session_of, may_log_in, drop_session, store_failed,
}
use protean.Accounts.Store.{ask, get_session, delete_session}
use protean.Accounts.Manager.{
  Crypto, is_local, is_emergency, method_enabled, check_method, hide_missing, authenticate, logout,
}
use protean.Accounts.Queries.{ask-Runs, asked-Runs, exec-Runs}

-- what GetSession joins
abbrev pub session_for : SessionRow → User → Session
session_for row u = record {
  user_id = row.user_id;
  username = u.username;
  role = u.role;
  auth_source = u.auth_source;
  expires_at = row.expires_at;
  password_changed_at = u.password_changed_at;
}

-- A row of the session table that has not expired, of an account that may log in.
abbrev pub IsLive : Db → Text → ℕ → Session → Type 0
IsLive db hash now x =
    (row : SessionRow) × (u : User) × (find_session hash db.sessions ≡ some row)
    × (ltb now row.expires_at ≡ true)
    × (find_id row.user_id db.users ≡ some u)
    × (may_log_in u ≡ true)
    × (x ≡ session_for row u)

session_of-IsLive :
    (row : SessionRow) (found : Option User) (x : Session)
    → session_of row found ≡ some x
    → (u : User) × (found ≡ some u) × (may_log_in u ≡ true) × (x ≡ session_for row u)
unfolding session_of
session_of-IsLive row none x h = cc
session_of-IsLive row (some u) x h =
    let (may, given) : (may_log_in u ≡ true) × (some (session_for row u) ≡ some x) =
      if_some (may_log_in u) (some (session_for row u)) h in
    (u, refl, may, sym (some_inj given))

live_session-IsLive :
    (now : ℕ) (found : Option SessionRow) (users : List User) (x : Session)
    → live_session now found users ≡ some x
    → (row : SessionRow) × (u : User) × (found ≡ some row)
      × (ltb now row.expires_at ≡ true)
      × (find_id row.user_id users ≡ some u)
      × (may_log_in u ≡ true)
      × (x ≡ session_for row u)
unfolding live_session
live_session-IsLive now none users x h = cc
live_session-IsLive now (some row) users x h =
    let (fresh, joined) : (ltb now row.expires_at ≡ true)
        × (session_of row (find_id row.user_id users) ≡ some x) =
      if_some (ltb now row.expires_at) (session_of row (find_id row.user_id users)) h in
    let (u, found, may, e) = session_of-IsLive row (find_id row.user_id users) x joined in
    (row, u, refl, fresh, found, may, e)

hide_missing-Runs :
    {A : Type 0} (Q : A → State → Type 0) (r : Except AuthError A × State)
    → Runs (λ _ _. Unit) Q r
    → Runs (λ _ _. Unit) Q (hide_missing r)
unfolding hide_missing
hide_missing-Runs Q (ok a, s) h = h
hide_missing-Runs Q (failed e, s) h = tt

module _ (fails : ℕ → Bool) (classes : Classes) (crypto : Crypto) (emergency : Text) where
  open crypto use {hash_token}

  -- The login method is on, or the account is the emergency admin.
  abbrev pub IsAdmitted : Db → Session → Type 0
  IsAdmitted db x =
      (method_enabled x.auth_source db ≡ true)
      ⊎ ((is_local x.auth_source ≡ true) × (is_emergency emergency x.username ≡ true))

  check_method-Runs :
      (x : Session) (s : State)
      → Runs
          (λ _ _. Unit)
          (λ _ s'. IsAdmitted s.db x × (s'.db ≡ s.db))
          (check_method fails classes crypto emergency x s)
  unfolding check_method
  check_method-Runs x s =
      elim (Bool-cases (is_local x.auth_source && is_emergency emergency x.username)) [
        | inl exempt ↦ rw exempt (inr (both exempt), refl)
        | inr plain ↦ rw plain (
            Runs-after (λ _ _. Unit)
              (λ on s'. (on ≡ method_enabled x.auth_source s.db) × (s'.db ≡ s.db))
              (λ _ s'. IsAdmitted s.db x × (s'.db ≡ s.db))
              (ask fails (method_enabled x.auth_source) s) (λ on. require on invalid_credentials)
              (ask-Runs fails (λ _ _. Unit) (method_enabled x.auth_source) s (λ _ _. tt))
              (λ on s' asked.
                Runs-weaken (λ _ _. Unit) (λ _ s''. (on ≡ true) × (s'' ≡ s'))
                  (λ _ s''. IsAdmitted s.db x × (s''.db ≡ s.db)) (require on invalid_credentials s')
                  (require-Runs (λ _ _. Unit) on invalid_credentials s' (λ _. tt))
                  (λ _ s'' h. (inl (sym asked.0 ∙ h.0), ap (λ z. z.db) h.1 ∙ asked.1))))
      ]

  -- Whatever queries fail: a token is accepted only if the table has a session under its hash that
  -- has not expired, of an account that is enabled and, for a user, has access to the portal, by a
  -- login method that is on or for the emergency admin; and the answer is that account's.
  pub authenticate-IsLive :
      (raw : Text) (now : ℕ) (s : State)
      → Runs
          (λ _ _. Unit)
          (λ x s'. IsLive s.db (hash_token raw) now x × IsAdmitted s.db x × (s'.db ≡ s.db))
          (authenticate fails classes crypto emergency raw now s)
  unfolding authenticate get_session
  authenticate-IsLive raw now s =
      Runs-after (λ _ _. Unit)
        (λ x s'.
          (live_session now (find_session (hash_token raw) s.db.sessions) s.db.users ≡ some x)
          × (s'.db ≡ s.db))
        (λ x s'. IsLive s.db (hash_token raw) now x × IsAdmitted s.db x × (s'.db ≡ s.db))
        (hide_missing (get_session fails (hash_token raw) now s)) _
        (hide_missing-Runs
          (λ x s'.
            (live_session now (find_session (hash_token raw) s.db.sessions) s.db.users ≡ some x)
            × (s'.db ≡ s.db))
          (get_session fails (hash_token raw) now s)
          (asked-Runs fails (λ _ _. Unit)
            (λ db. live_session now (find_session (hash_token raw) db.sessions) db.users) s
            (λ _ _ _. tt)))
        (λ x s' got.
          Runs-after (λ _ _. Unit) (λ _ s''. IsAdmitted s'.db x × (s''.db ≡ s'.db))
            (λ x s''. IsLive s.db (hash_token raw) now x × IsAdmitted s.db x × (s''.db ≡ s.db))
            (check_method fails classes crypto emergency x s') (λ _. pure x)
            (check_method-Runs x s')
            (λ _ s'' h. (
              live_session-IsLive now (find_session (hash_token raw) s.db.sessions) s.db.users x
                  got.0,
              subst (λ db. IsAdmitted db x) got.1 h.0,
              h.1 ∙ got.1,
            )))

  find_session-drop_session :
      (hash : Text) (rows : List SessionRow) → find_session hash (drop_session hash rows) ≡ none
  unfolding find_session drop_session
  find_session-drop_session hash [] = refl
  find_session-drop_session hash (r ∷ rs) = ground (arith, find_session-drop_session hash rs)

  -- Behind a logout that succeeded, the token is refused at any time, whatever queries fail.
  pub authenticate-logout :
      (raw : Text) (now : ℕ) (s s' : State)
      → logout fails classes crypto emergency raw s ≡ (ok tt, s')
      → Runs (λ _ _. Unit) (λ _ _. ⊥) (authenticate fails classes crypto emergency raw now s')
  unfolding logout delete_session
  authenticate-logout raw now s s' h =
      Runs-weaken (λ _ _. Unit)
        (λ x s''. IsLive s'.db (hash_token raw) now x × IsAdmitted s'.db x × (s''.db ≡ s'.db))
        (λ _ _. ⊥) (authenticate fails classes crypto emergency raw now s')
        (authenticate-IsLive raw now s')
        (λ x s'' (live, _, _).
          let done : some (cleared s.db) ≡ some s'.db =
            subst (Runs (λ _ _. Unit) (λ _ t. some (cleared s.db) ≡ some t.db)) h (
              exec-Runs fails (λ _ _. Unit) (λ db. some (cleared db)) store_failed s
                (λ _ _ _. tt)) in
          let absent : find_session (hash_token raw) s'.db.sessions ≡ none =
            sym (ap (λ db. find_session (hash_token raw) db.sessions) (some_inj done))
            ∙ find_session-drop_session (hash_token raw) s.db.sessions in
          none-some (sym absent ∙ live.2))
    where
      cleared : Db → Db
      cleared db = record db { sessions = drop_session (hash_token raw) db.sessions }
