-- ===== src/Accounts/Accepted.antt =====
-- That the token of a login is accepted.
use protean.Prelude.{
  ℕ, suc, ◌<◌, List, [], ◌∷◌, Bool, true, false, ◌≡◌, refl, sym, ap, ap₂, ◌∙◌, inl, inr, Option,
  none, some, Bool-cases, arith, both, ◌&&◌, ◌||◌, some_inj, subst, lt→ltb, none-some, ==_iff, ◌==◌,
  either, if-cases,
}
use protean.Prelude.Effects.{Except, ok, failed, Runs}
use protean.Strings.{Text, same}
use protean.Strings.Laws.{same_iff, same_refl}
use protean.Password.{Classes}
use protean.Accounts.{
  User, Session, Source, local, ldap, oidc, Db, State, AuthError, find_account, find_id,
  find_session, live_session, session_of, may_log_in, same_source,
}
use protean.Accounts.Store.{ask, get_session}
use protean.Accounts.Manager.{
  Crypto, session, is_emergency, hide_missing, method_enabled, check_method, authenticate, login,
}
use protean.Accounts.Sessions.{session_for}
use protean.Accounts.Logins.{IsProven, IsIssued, row_of, login-IsProven}

-- No two accounts have one id.
abbrev pub AreDistinct : List User → Type 0
AreDistinct [] = Unit
AreDistinct (u ∷ us) = (find_id u.id us ≡ none) × AreDistinct us

same_source_iff : (s : Source) → same_source s local ≡ true → s ≡ local
unfolding same_source
same_source_iff local h = refl
same_source_iff ldap h = cc
same_source_iff oidc h = cc

pub skip_user :
    (v : User) (vs : List User) (id : ℕ) (u : User)
    → find_id v.id vs ≡ none
    → find_id id vs ≡ some u
    → find_id id (v ∷ vs) ≡ some u
unfolding find_id
skip_user v vs id u fresh found = elim (Bool-cases (v.id == id)) [
  | inl e ↦
      let again : find_id id vs ≡ none =
        ap (λ k. find_id k vs) (sym ((==_iff v.id id).0 e)) ∙ fresh in
      absurd (none-some (sym again ∙ found))
  | inr e ↦ rw e found
]

-- An account that is found by its name is the one that its id finds.
pub find_account-find_id :
    (username : Text) (users : List User) (u : User)
    → AreDistinct users
    → find_account username local users ≡ some u
    → (find_id u.id users ≡ some u) × (u.username ≡ username) × (u.auth_source ≡ local)
unfolding find_account find_id
find_account-find_id username [] u d h = cc
find_account-find_id username (v ∷ vs) u d h =
    elim (if-cases (same v.username username && same_source v.auth_source local) (some v)
      (find_account username local vs) (some u) h) [
        | inl (hit, e) ↦
            subst
              (λ w.
                (find_id w.id (v ∷ vs) ≡ some w)
                × (w.username ≡ username)
                × (w.auth_source ≡ local))
              (some_inj e)
              (
                ground arith,
                (same_iff v.username username).0 (both hit).0,
                same_source_iff v.auth_source (both hit).1,
              )
        | inr (miss, later) ↦
            let (found, named, by) = find_account-find_id username vs u d.1 later in
            (skip_user v vs u.id u d.0 found, named, by)
      ]

-- The session of the account of the name is accepted, and the database stays.
abbrev pub IsAccepted : Text → Db → Except AuthError Session × State → Type 0
IsAccepted username db (ok x, s) = (x.username ≡ username) × (x.auth_source ≡ local) × (s.db ≡ db)
IsAccepted username db (failed e, s) = ⊥

module _ (fails : ℕ → Bool) (classes : Classes) (crypto : Crypto) (emergency : Text) where
  open crypto use {hash_token}

  abbrev pub counted : State → State
  counted s = record s { calls = suc s.calls }

  ask-lem :
      {A : Type 0}
      → ((n : ℕ) → fails n ≡ false)
      → (f : Db → A) (s : State) → ask fails f s ≡ (ok (f s.db), counted s)
  unfolding ask
  ask-lem never f s = rw (never s.calls) refl

  get_session-lem :
      (hash : Text) (now : ℕ) (s : State) (x : Session)
      → ((n : ℕ) → fails n ≡ false)
      → live_session now (find_session hash s.db.sessions) s.db.users ≡ some x
      → get_session fails hash now s ≡ (ok x, counted s)
  unfolding get_session
  get_session-lem hash now s x never h =
      rw (ask-lem never (λ db. live_session now (find_session hash db.sessions) db.users) s)
        (rw h refl)

  check_method-lem :
      (x : Session) (s : State)
      → ((n : ℕ) → fails n ≡ false)
      → x.auth_source ≡ local
      → s.db.internal_enabled || is_emergency emergency x.username ≡ true
      → (s' : State) × (check_method fails classes crypto emergency x s ≡ (ok tt, s'))
        × (s'.db ≡ s.db)
  unfolding check_method method_enabled
  check_method-lem x s never e on = elim (Bool-cases (is_emergency emergency x.username)) [
    | inl exempt ↦ (s, rw e (rw exempt refl), refl)
    | inr plain ↦ (
      counted s,
      rw e (
          rw plain (
            rw (ask-lem never (method_enabled local) s) (
              rw (either s.db.internal_enabled (is_emergency emergency x.username) on plain)
                refl))),
      refl,
    )
  ]

  authenticate-lem :
      (raw : Text) (now : ℕ) (s : State) (x : Session)
      → ((n : ℕ) → fails n ≡ false)
      → live_session now (find_session (hash_token raw) s.db.sessions) s.db.users ≡ some x
      → x.auth_source ≡ local
      → s.db.internal_enabled || is_emergency emergency x.username ≡ true
      → (s' : State) × (authenticate fails classes crypto emergency raw now s ≡ (ok x, s'))
        × (s'.db ≡ s.db)
  unfolding authenticate hide_missing
  authenticate-lem raw now s x never h by on =
      let (s', passed, same_db) = check_method-lem x (counted s) never by on in
      (s', rw (get_session-lem (hash_token raw) now s x never h) (rw passed refl), same_db)

  issued-live :
      (token : Text) (u : User) (now t expires : ℕ) (db db' : Db)
      → find_id u.id db.users ≡ some u
      → may_log_in u ≡ true
      → t < expires
      → IsIssued fails classes crypto emergency (some token) u now db token expires db'
      → live_session t (find_session (hash_token token) db'.sessions) db'.users
        ≡ some (
            session_for
              (record { user_id = u.id; token_hash = hash_token token; expires_at = expires })
              u)
  unfolding live_session find_session session_of
  issued-live token u now t expires db db' found may fresh issued =
      rw issued.3
        (rw (same_refl (hash_token token)) (rw (lt→ltb t expires fresh) (rw found (rw may refl))))

  -- Where no query fails, no two accounts have one id, and a login gave a session: until the session
  -- expires its token is accepted, as the local account of the name.
  pub authenticate-login :
      (raw : Option Text) (username password token : Text) (now expires t : ℕ) (s s' : State)
      → ((n : ℕ) → fails n ≡ false)
      → AreDistinct s.db.users
      → login fails classes crypto emergency raw username password now s
        ≡ (ok (session token expires), s')
      → t < expires
      → IsAccepted username s'.db (authenticate fails classes crypto emergency token t s')
  authenticate-login raw username password token now expires t s s' never distinct h fresh =
      let (u, on, found, right, may, (plain, issued)) : IsProven fails classes crypto emergency raw
          username password now s.db (session token expires) s'.db =
        subst
          (Runs (λ _ z. z.db ≡ s.db)
            (λ r z. IsProven fails classes crypto emergency raw username password now s.db r z.db))
          h ((login-IsProven fails classes crypto emergency raw username password now s).runs) in
      let (by_id, named, by) = find_account-find_id username s.db.users u distinct found in
      let live : live_session t (find_session (hash_token token) s'.db.sessions) s'.db.users
          ≡ some (session_for (row_of fails classes crypto emergency u token expires) u) =
        issued-live token u now t expires s.db s'.db by_id may fresh
          (refl, issued.1, issued.2, issued.3) in
      let (s'', accepted, same_db) =
        authenticate-lem token t s'
          (session_for (row_of fails classes crypto emergency u token expires) u) never live by
          (ap₂ (λ i n. i || is_emergency emergency n) (ap (λ z. z.internal_enabled) issued.3) named
            ∙ on) in
      rw accepted (named, by, same_db)
