-- ===== src/Accounts/Admins.antt =====
-- That an admin who makes a request stays one, so that there is always an enabled admin.
use protean.Prelude.{
  ℕ, List, [], ◌∷◌, ◌++◌, Bool, true, false, ◌≡◌, refl, sym, ap, ◌∙◌, inl, inr, Option, none, some,
  is_some, Option-cases, arith, ◌==◌, ==_iff, some_inj, if_some, if-cases, subst,
}
use protean.Prelude.Effects.{
  Except, ok, failed, Action, Does, Does-after, Does-weaken, after, require, each, from_option,
}
use protean.Accounts.{
  admin, User, Db, State, AuthError, find_id, set_user, without_user, without_sessions,
  without_owners, without_requests, not_found,
}
use protean.Accounts.Store.{ask, exec, update_user, delete_user}
use protean.Accounts.Queries.{ask-Does, exec-Does}
use protean.Accounts.Handlers.{ApiError, reply}

-- what the lookup of an enabled admin gives
abbrev pub AdminIs : Option User → Type 0
AdminIs none = ⊥
AdminIs (some u) = (u.role ≡ admin) × (u.enabled ≡ true)

abbrev pub IsAdmin : ℕ → Db → Type 0
IsAdmin id db = AdminIs (find_id id db.users)

abbrev pub changed : Bool → (User → User) → Option User → Option User
changed false f o = o
changed true f none = none
changed true f (some u) = some (f u)

find_id-set_user :
    (id k : ℕ) (f : User → User) (us : List User)
    → ((u : User) → (f u).id ≡ u.id)
    → find_id k (set_user id f us) ≡ changed (id == k) f (find_id k us)
unfolding find_id set_user
find_id-set_user id k f [] same_id = ground arith
find_id-set_user id k f (u ∷ us) same_id =
    ground (arith, find_id-set_user id k f us same_id, same_id u)

find_id-without_user :
    (id k : ℕ) (us : List User) → (id == k) ≡ false → find_id k (without_user id us) ≡ find_id k us
unfolding find_id without_user
find_id-without_user id k [] h = refl
find_id-without_user id k (u ∷ us) h = ground (arith, find_id-without_user id k us h)

pub find_id-append :
    (k : ℕ) (us vs : List User) (u : User) → find_id k us ≡ some u → find_id k (us ++ vs) ≡ some u
unfolding find_id
find_id-append k [] vs u h = cc
find_id-append k (v ∷ us) vs u h = ground (arith, find_id-append k us vs u)

pub find_id-id : (k : ℕ) (us : List User) (u : User) → find_id k us ≡ some u → u.id ≡ k
unfolding find_id
find_id-id k [] u h = cc
find_id-id k (v ∷ us) u h = elim (if-cases (v.id == k) (some v) (find_id k us) (some u) h) [
  | inl (hit, e) ↦ ap User.id (sym (some_inj e)) ∙ (==_iff v.id k).0 hit
  | inr (miss, later) ↦ find_id-id k us u later
]

pub append-AdminIs :
    (k : ℕ) (us vs : List User) → AdminIs (find_id k us) → AdminIs (find_id k (us ++ vs))
append-AdminIs k us vs h = elim (Option-cases (find_id k us)) [
  | inl e ↦ absurd (subst AdminIs e h)
  | inr (u, e) ↦ subst AdminIs (sym (find_id-append k us vs u e)) (subst AdminIs e h)
]

changed-AdminIs :
    (b : Bool) (f : User → User) (o : Option User)
    → ((u : User) → b ≡ true → AdminIs (some u) → AdminIs (some (f u)))
    → AdminIs o
    → AdminIs (changed b f o)
changed-AdminIs false f o h k = k
changed-AdminIs true f none h k = k
changed-AdminIs true f (some u) h k = h u refl k

-- what DeleteUser makes of the database
abbrev pub deleted : ℕ → Db → Db
deleted id db = record db {
  users = without_user id db.users;
  sessions = without_sessions id db.sessions;
  owners = without_owners id db.owners;
  requests = without_requests id db.requests;
}

module _ (fails : ℕ → Bool) (caller : ℕ) where
  -- A step that leaves the caller an enabled admin, however it ends.
  abbrev pub Keeps : {E A : Type 0} → Action State E A → Type 0
  Keeps {E = E} {A = A} m =
      (s : State)
      → IsAdmin caller s.db
      → Does (λ (e : E) s'. IsAdmin caller s'.db) (λ (a : A) s'. IsAdmin caller s'.db) (m s)

  pub kept : (s s' : State) → s'.db.users ≡ s.db.users → IsAdmin caller s.db → IsAdmin caller s'.db
  kept s s' e h = subst (λ us. AdminIs (find_id caller us)) (sym e) h

  pub reply-Does :
      {A : Type 0} (e : ApiError) (P : State → Type 0) (Q : A → State → Type 0)
      (r : Except AuthError A × State)
      → Does (λ _ s'. P s') Q r
      → Does (λ _ s'. P s') Q (reply e r)
  unfolding reply
  reply-Does e P Q (ok a, s) k = record { runs = k.runs }
  reply-Does e P Q (failed _, s) k = record { runs = k.runs }

  pub reply-Keeps :
      {A : Type 0} (e : ApiError) (m : Action State AuthError A)
      → Keeps m
      → Keeps (λ s. reply e (m s))
  reply-Keeps e m h s here =
      reply-Does e (λ s'. IsAdmin caller s'.db) (λ _ s'. IsAdmin caller s'.db) (m s) (h s here)

  -- a statement that leaves the caller an admin
  pub exec-Keeps :
      (f : Db → Option Db) (e : AuthError)
      → ((db db' : Db) → f db ≡ some db' → IsAdmin caller db → IsAdmin caller db')
      → Keeps (exec fails f e)
  exec-Keeps f e h s here =
      Does-weaken
        (exec-Does fails f e s (λ _ s' same_db. subst (IsAdmin caller) (sym same_db) here))
        (λ _ s' done. h s.db s'.db done here)

  pub update_user-Keeps :
      (id : ℕ) (f : User → User)
      → ((u : User) → (f u).id ≡ u.id)
      → ((u : User) → (id == caller) ≡ true → AdminIs (some u) → AdminIs (some (f u)))
      → Keeps (update_user fails id f)
  unfolding update_user
  update_user-Keeps id f same_id keeps = exec-Keeps _ not_found (λ db db' done here.
      let (_, put) : (is_some (find_id id db.users) ≡ true)
          × (some (record db { users = set_user id f db.users }) ≡ some db') =
        if_some (is_some (find_id id db.users))
          (some (record db { users = set_user id f db.users })) done in
      subst (IsAdmin caller) (some_inj put) (
        subst AdminIs (sym (find_id-set_user id caller f db.users same_id))
          (changed-AdminIs (id == caller) f (find_id caller db.users) keeps here)))

  pub delete_user-Keeps : (id : ℕ) → (id == caller) ≡ false → Keeps (delete_user fails id)
  unfolding delete_user
  delete_user-Keeps id other = exec-Keeps _ not_found (λ db db' done here.
      let (_, put) : (is_some (find_id id db.users) ≡ true) × (some (deleted id db) ≡ some db') =
        if_some (is_some (find_id id db.users)) (some (deleted id db)) done in
      subst (IsAdmin caller) (some_inj put)
        (subst AdminIs (sym (find_id-without_user id caller db.users other)) here))

  pub Keeps-after :
      {E A B : Type 0} (m : Action State E A) (f : A → Action State E B)
      → Keeps m
      → ((a : A) → Keeps (f a))
      → Keeps (λ s. after (m s) f)
  Keeps-after m f h k s here = Does-after (h s here) (λ a s' here'. k a s' here')

  pub ask-Keeps : {A : Type 0} (f : Db → A) → Keeps (ask fails f)
  ask-Keeps f s here =
      Does-weaken (ask-Does fails f s (λ s' same_db. subst (IsAdmin caller) (sym same_db) here))
        (λ a s' (_, same_db). subst (IsAdmin caller) (sym same_db) here)

  pub require-Keeps : {E : Type 0} (b : Bool) (e : E) → Keeps (require b e)
  require-Keeps true e s here = record { runs = here }
  require-Keeps false e s here = record { runs = here }

  pub from_option-Keeps : {E A : Type 0} (o : Option A) (e : E) → Keeps (from_option o e)
  from_option-Keeps none e s here = record { runs = here }
  from_option-Keeps (some a) e s here = record { runs = here }

  pub each-Keeps :
      {E A : Type 0} (f : A → Action State E (Unit {0})) (xs : List A)
      → ((x : A) → Keeps (f x))
      → Keeps (each f xs)
  each-Keeps f [] h = λ s here. record { runs = here }
  each-Keeps f (x ∷ xs) h = Keeps-after (f x) (λ _. each f xs) (h x) (λ _. each-Keeps f xs h)
