-- ===== src/Accounts/Store.antt =====
-- The queries of internal/store/users.go and internal/store/sessions.go, as actions on the database.
use protean.Prelude.{
  ℕ, suc, [], ◌∷◌, ◌++◌, Bool, true, false, not, ◌&&◌, Option, none, some, is_some, if◌then◌else◌,
}
use protean.Prelude.Effects.{ok, failed, ◌>>=◌, ◌>>◌, from_option}
use protean.Strings.{Text}
use protean.Accounts.{
  Auth, AuthError, Db, Role, Session, Source, User, drop_session, duplicate, find_account, find_id,
  find_session, live_session, local, not_found, set_user, store_failed, without_owners,
  without_requests, without_sessions, without_user,
}

module _ (fails : ℕ → Bool) where
  -- a query
  unfoldable pub ask : {A : Type 0} → (Db → A) → Auth A
  ask f s =
      let s' = record s { calls = suc s.calls } in
      if fails s.calls then (failed store_failed, s') else (ok (f s.db), s')

  -- a query whose error is not passed on
  unfoldable pub try_ask : {A : Type 0} → (Db → A) → Auth (Option A)
  try_ask f s =
      let s' = record s { calls = suc s.calls } in
      if fails s.calls then (ok none, s') else (ok (some (f s.db)), s')

  unfoldable pub written : AuthError → Option Db → Auth (Unit {0})
  written e none s = (failed e, s)
  written e (some db) s = (ok tt, record s { db = db })

  -- a statement that changes the database, or violates a constraint or meets no row
  unfoldable pub exec : (Db → Option Db) → AuthError → Auth (Unit {0})
  unfolding ask written
  exec f e = do written e (← ask f)

  -- GetUserByUsernameAndSource
  unfoldable pub get_account : Text → Source → Auth User
  unfolding ask find_account
  get_account username source = do
    from_option (← ask λ db. find_account username source db.users) not_found

  -- GetUserByID
  unfoldable pub get_user : ℕ → Auth User
  unfolding ask find_id
  get_user id = do from_option (← ask λ db. find_id id db.users) not_found

  -- UpdateUserPassword, UpdateUserRole, UpdateUserEnabled, UpdateUserPortalAccess and SetUserTOTP
  unfoldable pub update_user : ℕ → (User → User) → Auth (Unit {0})
  unfolding exec set_user find_id
  update_user id f =
      exec
        (λ db.
          if is_some (find_id id db.users)
          then some (record db { users = set_user id f db.users })
          else none)
        not_found

  abbrev pub new_account : ℕ → Text → Text → Role → Source → ℕ → User
  new_account id username hash role source now = record {
    id = id;
    username = username;
    password_hash = hash;
    role = role;
    auth_source = source;
    totp_secret = [];
    totp_enabled = false;
    password_changed_at = now;
    enabled = true;
    portal_access_enabled = true;
  }

  abbrev pub inserted : User → Db → Db
  inserted u db = record db { users = db.users ++ u ∷ []; next_id = suc db.next_id }

  -- CreateUser; a name that a local account has violates the unique key
  unfoldable pub create_account : Text → Text → Role → ℕ → Auth (Unit {0})
  unfolding exec find_account
  create_account username hash role now =
      exec
        (λ db.
          if is_some (find_account username local db.users)
          then none
          else some (inserted (new_account db.next_id username hash role local now) db))
        duplicate

  abbrev pub upserted : Text → Source → Role → ℕ → Option User → Db → Db
  upserted username source role now none db =
      inserted (new_account db.next_id username [] role source now) db
  upserted username source role now (some u) db = record db {
    users = set_user u.id (λ u. record u { role = role }) db.users;
  }

  -- UpsertExternalUser
  unfoldable pub upsert_external : Text → Source → Role → ℕ → Auth User
  unfolding exec ask find_account set_user
  upsert_external username source role now = do
    exec (λ db. some (upserted username source role now (find_account username source db.users) db))
        store_failed
    λ s. from_option (find_account username source s.db.users) store_failed s

  -- CreateSession
  unfoldable pub insert_session : ℕ → Text → ℕ → Auth (Unit {0})
  unfolding exec find_id find_session
  insert_session user_id hash expires_at =
      exec
        (λ db.
          if is_some (find_id user_id db.users) && not (is_some (find_session hash db.sessions))
          then some (record db {
            sessions =
                record { user_id = user_id; token_hash = hash; expires_at = expires_at }
                ∷ db.sessions;
          })
          else none)
        store_failed

  -- GetSession
  unfoldable pub get_session : Text → ℕ → Auth Session
  unfolding ask live_session find_session
  get_session hash now = do
    from_option (← ask λ db. live_session now (find_session hash db.sessions) db.users) not_found

  -- DeleteSession
  unfoldable pub delete_session : Text → Auth (Unit {0})
  unfolding exec drop_session
  delete_session hash =
      exec (λ db. some (record db { sessions = drop_session hash db.sessions })) store_failed

  -- DeleteUser
  unfoldable pub delete_user : ℕ → Auth (Unit {0})
  unfolding exec without_user without_sessions without_owners without_requests find_id
  delete_user id =
      exec
        (λ db.
          if is_some (find_id id db.users)
          then some (record db {
            users = without_user id db.users;
            sessions = without_sessions id db.sessions;
            owners = without_owners id db.owners;
            requests = without_requests id db.requests;
          })
          else none)
        not_found
