-- ===== src/Accounts/Requests.antt =====
-- The requests about accounts, one after the other: an enabled admin always remains.
use protean.Prelude.{
  ℕ, List, Bool, true, false, not, ◌≡◌, refl, sym, inl, inr, Option, none, some, Bool-cases,
  if◌then◌else◌, arith, leb, ◌==◌, subst,
}
use protean.Prelude.Effects.{
  Action, Does, Does-after, Does-weaken, require-Does, after, require, each,
}
use protean.Strings.{Text}
use protean.Accounts.{admin, denied, User, Owner, Request, Db, State, find_id, same_role}
use protean.Accounts.Store.{ask, get_user, delete_user}
use protean.Accounts.Queries.{asked-Does}
use protean.Accounts.Handlers.{
  ApiError, no_such_user, internal_error, last_admin, own_account, reply, try_change, try_rows,
  remove_decoded, remove_owned, remove_user_peers, deny_request, deny_user_requests, is_denied,
  without_owner, set_status, owned_by, requests_of, check_last_admin, check_disable, withdraw,
  users_delete, count_role, count_enabled_admins,
}
use protean.Accounts.Admins.{
  AdminIs, IsAdmin, Keeps, find_id-id, reply-Does, reply-Keeps, delete_user-Keeps, Keeps-after,
  ask-Keeps, require-Keeps, each-Keeps,
}

module _ (fails : ℕ → Bool) (known : Text → Bool) (decode : Text → Option Text)
    (removes : Text → Text → Bool) (caller : ℕ) where
  abbrev Stays : {E A : Type 0} → Action State E A → Type 0
  Stays m = Keeps fails caller m

  try_change-Keeps :
      (f : Db → Db) → ((db : Db) → (f db).users ≡ db.users) → Stays (try_change fails f)
  unfolding try_change
  try_change-Keeps f same_users s here = elim (Bool-cases (fails s.calls)) [
    | inl h ↦ rw h (record { runs = here })
    | inr h ↦
        rw h
          (record { runs = subst (λ us. AdminIs (find_id caller us)) (sym (same_users s.db)) here })
  ]

  try_rows-Keeps : {A : Type 0} (f : Db → List A) → Stays (try_rows fails f)
  unfolding try_rows
  try_rows-Keeps f s here = record { runs = here }

  remove_known :
      (b : Bool) (provider : Text) (key : Option Text) (s : State)
      → (if b then remove_decoded fails known decode removes provider key s else s).db ≡ s.db
  unfolding remove_decoded
  remove_known false provider key s = refl
  remove_known true provider none s = refl
  remove_known true provider (some k) s = elim (Bool-cases (removes provider k)) [
    | inl h ↦ rw h refl
    | inr h ↦ rw h refl
  ]

  remove_owned-Keeps : (o : Owner) → Stays (remove_owned fails known decode removes o)
  unfolding remove_owned
  remove_owned-Keeps o s here =
      try_change-Keeps (λ db. record db { owners = without_owner o.provider o.peer_key db.owners })
        (λ db. refl)
        (if known o.provider
          then remove_decoded fails known decode removes o.provider (decode o.peer_key) s
          else s)
        (subst (IsAdmin caller)
          (sym (remove_known (known o.provider) o.provider (decode o.peer_key) s)) here)

  remove_user_peers-Keeps : (id : ℕ) → Stays (remove_user_peers fails known decode removes id)
  unfolding remove_user_peers
  remove_user_peers-Keeps id =
      Keeps-after fails caller (try_rows fails (λ db. owned_by id db.owners))
        (each (remove_owned fails known decode removes))
        (try_rows-Keeps (λ db. owned_by id db.owners))
        (λ owned.
          each-Keeps fails caller (remove_owned fails known decode removes) owned
            remove_owned-Keeps)

  deny_request-Keeps : (r : Request) → Stays (deny_request fails r)
  unfolding deny_request
  deny_request-Keeps r s here = elim (Bool-cases (is_denied r.status)) [
    | inl h ↦ rw h (record { runs = here })
    | inr h ↦ rw h (
        try_change-Keeps (λ db. record db { requests = set_status r.request_id denied db.requests })
          (λ db. refl) s here)
  ]

  pub withdraw-Keeps : (id : ℕ) → Stays (withdraw fails known decode removes id)
  unfolding withdraw deny_user_requests
  withdraw-Keeps id =
      Keeps-after fails caller (remove_user_peers fails known decode removes id)
        (λ _. deny_user_requests fails id) (remove_user_peers-Keeps id)
        (λ _.
          Keeps-after fails caller (try_rows fails (λ db. requests_of id db.requests))
            (each (deny_request fails)) (try_rows-Keeps (λ db. requests_of id db.requests))
            (λ rows. each-Keeps fails caller (deny_request fails) rows deny_request-Keeps))

  -- the account of an id, which the caller's state outlives
  pub get_user-Does :
      (id : ℕ) (s : State)
      → IsAdmin caller s.db
      → Does
          (λ (_ : ApiError) s'. IsAdmin caller s'.db)
          (λ t s'. (t.id ≡ id) × IsAdmin caller s'.db)
          (reply no_such_user (get_user fails id s))
  unfolding get_user
  get_user-Does id s here =
      reply-Does fails caller no_such_user (λ s'. IsAdmin caller s'.db)
        (λ t s'. (t.id ≡ id) × IsAdmin caller s'.db) (get_user fails id s)
        (Does-weaken
          (asked-Does fails (λ db. find_id id db.users) s
            (λ _ s' same_db. subst (IsAdmin caller) (sym same_db) here))
          (λ t s' (found, same_db).
            (find_id-id id s.db.users t found, subst (IsAdmin caller) (sym same_db) here)))

  asked_count-Keeps :
      (count : Db → ℕ)
      → Stays (λ s.
        after (reply internal_error (ask fails count s)) (λ n. require (not (leb n 1)) last_admin))
  asked_count-Keeps count =
      Keeps-after fails caller (λ s. reply internal_error (ask fails count s))
        (λ n. require (not (leb n 1)) last_admin)
        (reply-Keeps fails caller internal_error (ask fails count) (ask-Keeps fails caller count))
        (λ n. require-Keeps fails caller (not (leb n 1)) last_admin)

  check_last_admin-Keeps : (t : User) → Stays (check_last_admin fails t)
  unfolding check_last_admin
  check_last_admin-Keeps t s here = elim (Bool-cases (same_role t.role admin)) [
    | inl h ↦ rw h (asked_count-Keeps (λ db. count_role admin db.users) s here)
    | inr h ↦ rw h (record { runs = here })
  ]

  -- the guard of the caller's own account
  other_account : (t_id id : ℕ) → t_id ≡ id → not (t_id == caller) ≡ true → (id == caller) ≡ false
  other_account t_id id e h = ground arith

  pub users_delete-Keeps : (id : ℕ) → Stays (users_delete fails known decode removes caller id)
  unfolding users_delete
  users_delete-Keeps id s here = Does-after (get_user-Does id s here) (λ t s1 (by_id, here1).
      Does-after (check_last_admin-Keeps t s1 here1) (λ _ s2 here2.
        Does-after (require-Does (not (t.id == caller)) own_account s2 (λ _. here2))
          (λ _ s3 (other, same3).
            Keeps-after fails caller (remove_user_peers fails known decode removes id)
              (λ _ z. reply internal_error (delete_user fails id z)) (remove_user_peers-Keeps id)
              (λ _.
                reply-Keeps fails caller internal_error (delete_user fails id)
                  (delete_user-Keeps fails caller id (other_account t.id id by_id other)))
              s3 (subst (λ z. IsAdmin caller z.db) (sym same3) here2))))

  pub check_disable-Does :
      (id : ℕ) (t : User) (s : State)
      → t.id ≡ id
      → IsAdmin caller s.db
      → Does
          (λ (_ : ApiError) s'. IsAdmin caller s'.db)
          (λ _ s'. ((id == caller) ≡ false) × IsAdmin caller s'.db)
          (check_disable fails caller t s)
  unfolding check_disable
  check_disable-Does id t s by_id here =
      Does-after (require-Does (not (t.id == caller)) own_account s (λ _. here))
        (λ _ s1 (other, same1).
          let here1 : IsAdmin caller s1.db = subst (λ z. IsAdmin caller z.db) (sym same1) here in
          let apart : (id == caller) ≡ false = other_account t.id id by_id other in
          elim (Bool-cases (same_role t.role admin)) [
            | inl h ↦ rw h (
                Does-weaken (asked_count-Keeps (λ db. count_enabled_admins db.users) s1 here1)
                  (λ _ _ k. (apart, k)))
            | inr h ↦ rw h (record { runs = (apart, here1) })
          ])
