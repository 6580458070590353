-- ===== src/Accounts/Logins.antt =====
-- What a login proves, and that the session it gives is accepted.
use protean.Prelude.{
  ℕ, ◌+◌, ◌≤◌, ◌∷◌, Bool, true, false, not, ◌≡◌, refl, sym, ap, ◌∙◌, inl, inr, Option, none, some,
  is_some, Bool-cases, if◌then◌else◌, arith, ◌&&◌, ◌||◌, some_inj, if_some, subst,
}
use protean.Prelude.Effects.{Except, ok, failed, Does, Does-after, Does-weaken, require-Does, pure}
use protean.Strings.{Text}
use protean.Password.{Classes}
use protean.Accounts.{
  User, SessionRow, local, Db, State, AuthError, invalid_credentials, account_disabled,
  internal_auth_disabled, portal_access_denied, random_failed, store_failed, find_account, find_id,
  find_session, may_log_in, is_user,
}
use protean.Accounts.Store.{get_account, try_ask, insert_session}
use protean.Accounts.Manager.{
  Crypto, LoginResult, session, need_totp, is_emergency, hidden, hide_missing,
  check_account_login_allowed, create_session, session_ttl, issue, login,
}
use protean.Accounts.Queries.{ask-Does, asked-Does, exec-Does}

not_both : (a p : Bool) → a && not p ≡ false → not a || p ≡ true
not_both true p h = ground arith
not_both false p h = refl

check_account_login_allowed-Does :
    (F : AuthError → State → Type 0) (u : User) (s : State)
    → ((e : AuthError) → F e s)
    → Does F (λ _ s'. (may_log_in u ≡ true) × (s' ≡ s)) (check_account_login_allowed u s)
unfolding check_account_login_allowed may_log_in
check_account_login_allowed-Does F u s h = elim (Bool-cases u.enabled) [
  | inl on ↦ elim (Bool-cases (is_user u.role && not u.portal_access_enabled)) [
    | inl denied ↦ rw on (rw denied (record { runs = h portal_access_denied }))
    | inr allowed ↦ rw on (
        rw allowed
          (record { runs = (not_both (is_user u.role) u.portal_access_enabled allowed, refl) }))
  ]
  | inr off ↦ rw off (record { runs = h account_disabled })
]

module _ (fails : ℕ → Bool) (classes : Classes) (crypto : Crypto) (emergency : Text) where
  open crypto use {hash_token, check_password}

  abbrev pub row_of : User → Text → ℕ → SessionRow
  row_of u token expires = record {
    user_id = u.id;
    token_hash = hash_token token;
    expires_at = expires;
  }

  -- The session of the account was added, under a token that no session had.
  abbrev pub IsIssued : Option Text → User → ℕ → Db → Text → ℕ → Db → Type 0
  IsIssued raw u now db token expires db' =
      (raw ≡ some token)
      × (now ≤ expires)
      × (is_some (find_id u.id db.users)
            && not (is_some (find_session (hash_token token) db.sessions))
          ≡ true)
      × (db' ≡ record db { sessions = row_of u token expires ∷ db.sessions })

  -- what CreateSession makes of the database
  abbrev pub insertion : User → Text → ℕ → Db → Option Db
  insertion u token expires db =
      if is_some (find_id u.id db.users)
        && not (is_some (find_session (hash_token token) db.sessions))
      then some (record db { sessions = row_of u token expires ∷ db.sessions })
      else none

  insertion-IsIssued :
      (token : Text) (u : User) (now ttl : ℕ) (db db' : Db)
      → insertion u token (now + ttl) db ≡ some db'
      → IsIssued (some token) u now db token (now + ttl) db'
  insertion-IsIssued token u now ttl db db' done =
      let (may, put) : (is_some (find_id u.id db.users)
              && not (is_some (find_session (hash_token token) db.sessions))
            ≡ true)
          × (some (record db { sessions = row_of u token (now + ttl) ∷ db.sessions }) ≡ some db') =
        if_some
          (is_some (find_id u.id db.users)
            && not (is_some (find_session (hash_token token) db.sessions)))
          (some (record db { sessions = row_of u token (now + ttl) ∷ db.sessions })) done in
      (refl, omega arith, may, sym (some_inj put))

  try_ask-Does :
      {A : Type 0} (F : AuthError → State → Type 0) (f : Db → A) (s : State)
      → Does F (λ _ s'. s'.db ≡ s.db) (try_ask fails f s)
  unfolding try_ask
  try_ask-Does F f s = elim (Bool-cases (fails s.calls)) [
    | inl h ↦ rw h (record { runs = refl })
    | inr h ↦ rw h (record { runs = refl })
  ]

  create_session-Does :
      (F : AuthError → State → Type 0) (raw : Option Text) (u : User) (now : ℕ) (s : State)
      → ((e : AuthError) (s' : State) → s'.db ≡ s.db → F e s')
      → Does F
          (λ got s'. IsIssued raw u now s.db got.0 got.1 s'.db)
          (create_session fails classes crypto emergency raw u.id now s)
  unfolding create_session insert_session
  create_session-Does F none u now s h = record { runs = h random_failed s refl }
  create_session-Does F (some token) u now s h =
      Does-after (try_ask-Does F (λ db. db.session_ttl_hours) s) (λ hours s' same_db.
        Does-after
          (exec-Does fails (insertion u token (now + session_ttl hours)) store_failed s'
            (λ e s'' k. h e s'' (k ∙ same_db)))
          (λ _ s'' done. record {
            runs =
                insertion-IsIssued token u now (session_ttl hours) s.db s''.db
                  (ap (insertion u token (now + session_ttl hours)) (sym same_db) ∙ done);
          }))

  -- What a login that succeeds has proved of the account, and what it did.
  abbrev pub IsEntered : Option Text → User → ℕ → Db → LoginResult → Db → Type 0
  IsEntered raw u now db need_totp db' = (u.totp_enabled ≡ true) × (db' ≡ db)
  IsEntered raw u now db (session token expires) db' =
      (u.totp_enabled ≡ false) × IsIssued raw u now db token expires db'

  abbrev pub IsProven : Option Text → Text → Text → ℕ → Db → LoginResult → Db → Type 0
  IsProven raw username password now db r db' =
      (u : User) × (db.internal_enabled || is_emergency emergency username ≡ true)
      × (find_account username local db.users ≡ some u)
      × (check_password u.password_hash password ≡ true)
      × (may_log_in u ≡ true)
      × IsEntered raw u now db r db'

  issue-Does :
      (F : AuthError → State → Type 0) (raw : Option Text) (u : User) (now : ℕ) (s : State)
      → ((e : AuthError) (s' : State) → s'.db ≡ s.db → F e s')
      → u.totp_enabled ≡ false
      → Does F
          (λ r s'. IsEntered raw u now s.db r s'.db)
          (issue fails classes crypto emergency raw u now s)
  unfolding issue
  issue-Does F raw u now s h plain =
      Does-after (create_session-Does F raw u now s h)
        (λ got s' issued. record { runs = (plain, issued) })

  hide_missing-Does :
      {A : Type 0} {F : AuthError → State → Type 0} {Q : A → State → Type 0}
      {r : Except AuthError A × State}
      → Does F Q r
      → ((e : AuthError) (s : State) → F e s → F (hidden e) s)
      → Does F Q (hide_missing r)
  unfolding hide_missing
  hide_missing-Does {r = (ok a, s)} k h = record { runs = k.runs }
  hide_missing-Does {r = (failed e, s)} k h = record { runs = h e s k.runs }

  -- the end of a login, behind the tests
  entered-Does :
      (raw : Option Text) (username password : Text) (u : User) (now : ℕ) (db : Db) (s : State)
      → s.db ≡ db
      → ((r : LoginResult) (db' : Db)
          → IsEntered raw u now db r db'
          → IsProven raw username password now db r db')
      → Does
          (λ _ s'. s'.db ≡ db)
          (λ r s'. IsProven raw username password now db r s'.db)
          ((if u.totp_enabled
              then pure need_totp
              else issue fails classes crypto emergency raw u now)
            s)
  unfolding issue
  entered-Does raw username password u now db s here h = elim (Bool-cases u.totp_enabled) [
    | inl on ↦ rw on (record { runs = h need_totp s.db (on, here) })
    | inr off ↦ rw off (
        Does-weaken (issue-Does (λ _ s'. s'.db ≡ db) raw u now s (λ _ _ e. e ∙ here) off)
          (λ r s' entered. h r s'.db (subst (λ z. IsEntered raw u now z r s'.db) here entered)))
  ]

  -- Whatever queries fail: a login that is accepted, with a session or with the demand for a code,
  -- proves that local logins are on or the name is the emergency admin's, that the password is that of
  -- the local account of the name, and that the account may log in; the session is added under a token
  -- that none had, and the code is demanded exactly of an account with a second factor. A login that
  -- is refused leaves the database as it was.
  pub login-IsProven :
      (raw : Option Text) (username password : Text) (now : ℕ) (s : State)
      → Does
          (λ _ s'. s'.db ≡ s.db)
          (λ r s'. IsProven raw username password now s.db r s'.db)
          (login fails classes crypto emergency raw username password now s)
  unfolding login get_account
  login-IsProven raw username password now s =
      Does-after (ask-Does fails (λ db. db.internal_enabled) s (λ _ e. e)) (λ internal s1 asked.
        Does-after
          (require-Does (internal || is_emergency emergency username) internal_auth_disabled s1
            (λ _. asked.1))
          (λ _ s2 on.
            let same2 : s2.db ≡ s.db = ap State.db on.1 ∙ asked.1 in
            Does-after
              (hide_missing-Does
                (asked-Does fails (λ db. find_account username local db.users) s2
                  (λ _ _ e. e ∙ same2))
                (λ _ _ e. e))
              (λ u s3 got.
                let same3 : s3.db ≡ s.db = got.1 ∙ same2 in
                Does-after
                  (require-Does (check_password u.password_hash password) invalid_credentials s3
                    (λ _. same3))
                  (λ _ s4 right.
                    let same4 : s4.db ≡ s.db = ap State.db right.1 ∙ same3 in
                    Does-after
                      (check_account_login_allowed-Does (λ _ s'. s'.db ≡ s.db) u s4 (λ _. same4))
                      (λ _ s5 may.
                        entered-Does raw username password u now s.db s5 (ap State.db may.1 ∙ same4)
                          (λ r db' entered. (
                            u,
                            ap (λ b. b || is_emergency emergency username) (sym asked.0) ∙ on.0,
                            ap (λ db. find_account username local db.users) (sym same2) ∙ got.0,
                            right.0,
                            may.0,
                            entered,
                          )))))))
