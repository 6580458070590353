-- ===== src/Accounts/Stays.antt =====
-- The handlers about accounts leave the admin who calls them an enabled admin.
use protean.Prelude.{
  ℕ, [], ◌∷◌, Bool, true, false, not, refl, inl, inr, Option, none, some, is_some, if◌then◌else◌,
  some_inj, none-some, if-cases, subst,
}
use protean.Prelude.Effects.{Action, Does-after, pure, after, from_option}
use protean.Strings.{Text, trim_space, is_empty}
use protean.Password.{Classes, Verdict, accepted, rejected, validate_password}
use protean.Accounts.{Role, local, State, find_account, not_found, duplicate, hash_failed}
use protean.Accounts.Store.{ask, get_account, update_user, create_account, new_account, inserted}
use protean.Accounts.Manager.{
  Crypto, check_policy, policy_of, hashed, set_password, create_user, admin_set_password,
}
use protean.Accounts.Handlers.{
  internal_error, username_required, rejected_password, reply, withdraw, users_create,
  users_set_enabled, users_set_portal_access, users_reset_password, read_role, bad_role,
}
use protean.Accounts.Admins.{
  append-AdminIs, IsAdmin, Keeps, reply-Keeps, exec-Keeps, update_user-Keeps, Keeps-after,
  ask-Keeps, require-Keeps, from_option-Keeps,
}
use protean.Accounts.Requests.{get_user-Does, check_disable-Does, withdraw-Keeps}

module _ (fails : ℕ → Bool) (classes : Classes) (crypto : Crypto) (known : Text → Bool)
    (decode : Text → Option Text) (removes : Text → Text → Bool) (caller : ℕ) where
  abbrev Stays : {E A : Type 0} → Action State E A → Type 0
  Stays m = Keeps fails caller m

  pub users_set_enabled-Keeps :
      (id : ℕ) (on : Bool) → Stays (users_set_enabled fails known decode removes caller id on)
  unfolding users_set_enabled
  users_set_enabled-Keeps id true s here =
      Does-after (get_user-Does fails known decode removes caller id s here) (λ t s1 (_, here1).
        Keeps-after fails caller
          (λ z. reply internal_error (update_user fails id (λ u. record u { enabled = true }) z))
          (λ _. pure tt)
          (reply-Keeps fails caller internal_error
            (update_user fails id (λ u. record u { enabled = true }))
            (update_user-Keeps fails caller id (λ u. record u { enabled = true }) (λ u. refl)
              (λ u _ h. (h.0, refl))))
          (λ _ z h. record { runs = h }) s1 here1)
  users_set_enabled-Keeps id false s here =
      Does-after (get_user-Does fails known decode removes caller id s here) (λ t s1 (by_id, here1).
        Does-after (check_disable-Does fails known decode removes caller id t s1 by_id here1)
          (λ _ s2 (other, here2).
            Keeps-after fails caller
              (λ z.
                reply internal_error (update_user fails id (λ u. record u { enabled = false }) z))
              (λ _. withdraw fails known decode removes id)
              (reply-Keeps fails caller internal_error
                (update_user fails id (λ u. record u { enabled = false }))
                (update_user-Keeps fails caller id (λ u. record u { enabled = false }) (λ u. refl)
                  (λ u same_one _. cc)))
              (λ _. withdraw-Keeps fails known decode removes caller id) s2 here2))

  pub users_set_portal_access-Keeps :
      (id : ℕ) (on : Bool) → Stays (users_set_portal_access fails id on)
  unfolding users_set_portal_access
  users_set_portal_access-Keeps id on s here =
      Does-after (get_user-Does fails known decode removes caller id s here) (λ t s1 (_, here1).
        reply-Keeps fails caller internal_error
          (update_user fails id (λ u. record u { portal_access_enabled = on }))
          (update_user-Keeps fails caller id (λ u. record u { portal_access_enabled = on })
            (λ u. refl) (λ u _ h. h))
          s1 here1)

  check_policy-Keeps : (password : Text) → Stays (check_policy fails classes crypto [] password)
  unfolding check_policy
  check_policy-Keeps password =
      Keeps-after fails caller (ask fails (λ db. db.policy))
        (λ policy. policy_of fails classes crypto [] (validate_password classes policy password))
        (ask-Keeps fails caller (λ db. db.policy))
        (λ policy. verdict (validate_password classes policy password))
    where
      verdict : (v : Verdict) → Stays (policy_of fails classes crypto [] v)
      verdict accepted s h = record { runs = h }
      verdict (rejected e) s h = record { runs = h }

  hashed-Keeps : (password : Text) → Stays (hashed fails classes crypto [] password)
  unfolding hashed
  hashed-Keeps password s here =
      from_option-Keeps fails caller (crypto.hash_password s.calls password) hash_failed s here

  get_account-Keeps : (username : Text) → Stays (get_account fails username local)
  unfolding get_account
  get_account-Keeps username =
      Keeps-after fails caller (ask fails (λ db. find_account username local db.users))
        (λ o. from_option o not_found)
        (ask-Keeps fails caller (λ db. find_account username local db.users))
        (λ o. from_option-Keeps fails caller o not_found)

  create_account-Keeps :
      (username hash : Text) (role : Role) (now : ℕ)
      → Stays (create_account fails username hash role now)
  unfolding create_account
  create_account-Keeps username hash role now =
      exec-Keeps fails caller
        (λ db.
          if is_some (find_account username local db.users)
          then none
          else some (inserted fails (new_account fails db.next_id username hash role local now) db))
        duplicate
        (λ db db' done here.
          elim (if-cases (is_some (find_account username local db.users)) none
            (some (inserted fails (new_account fails db.next_id username hash role local now) db))
            (some db') done) [
              | inl (_, taken) ↦ absurd (none-some taken)
              | inr (_, put) ↦ subst (IsAdmin caller) (some_inj put) (
                  append-AdminIs caller db.users
                    (new_account fails db.next_id username hash role local now ∷ []) here)
            ])

  create_user-Keeps :
      (username password : Text) (role : Role) (now : ℕ)
      → Stays (create_user fails classes crypto [] username password role now)
  unfolding create_user
  create_user-Keeps username password role now =
      Keeps-after fails caller (check_policy fails classes crypto [] password)
        (λ _ s.
          after (hashed fails classes crypto [] password s)
            (λ hash. create_account fails username hash role now))
        (check_policy-Keeps password)
        (λ _.
          Keeps-after fails caller (hashed fails classes crypto [] password)
            (λ hash. create_account fails username hash role now) (hashed-Keeps password)
            (λ hash. create_account-Keeps username hash role now))

  admin_set_password-Keeps :
      (username password : Text) (now : ℕ)
      → Stays (admin_set_password fails classes crypto [] username password now)
  unfolding admin_set_password
  admin_set_password-Keeps username password now s here =
      Does-after (check_policy-Keeps password s here) (λ _ s1 here1.
        Does-after (get_account-Keeps username s1 here1) (λ u s2 here2.
          Does-after (hashed-Keeps password s2 here2) (λ hash s3 here3.
            update_user-Keeps fails caller u.id (set_password hash now) (λ v. refl) (λ v _ h. h) s3
              here3)))

  pub users_create-Keeps :
      (username password req_role : Text) (now : ℕ)
      → Stays (users_create fails classes crypto username password req_role now)
  unfolding users_create
  users_create-Keeps username password req_role now s here =
      Does-after
        (require-Keeps fails caller (not (is_empty (trim_space username))) username_required s here)
        (λ _ s1 here1.
          Does-after
            (from_option-Keeps fails caller (read_role fails classes crypto req_role) bad_role s1
              here1)
            (λ role s2 here2.
              Does-after
                (reply-Keeps fails caller rejected_password
                  (create_user fails classes crypto [] (trim_space username) password role now)
                  (create_user-Keeps (trim_space username) password role now) s2 here2)
                (λ _ s3 here3.
                  reply-Keeps fails caller internal_error
                    (get_account fails (trim_space username) local)
                    (get_account-Keeps (trim_space username)) s3 here3)))

  pub users_reset_password-Keeps :
      (id : ℕ) (password : Text) (now : ℕ)
      → Stays (users_reset_password fails classes crypto id password now)
  unfolding users_reset_password
  users_reset_password-Keeps id password now s here =
      Does-after (get_user-Does fails known decode removes caller id s here) (λ t s1 (_, here1).
        reply-Keeps fails caller rejected_password
          (admin_set_password fails classes crypto [] t.username password now)
          (admin_set_password-Keeps t.username password now) s1 here1)
