-- ===== src/Console/Caps.antt =====
-- The caps on concurrent sessions hold whatever the order of openings and closings.
use protean.Prelude.{
  ℕ, zero, suc, ◌+◌, ◌≤◌, ◌<◌, List, [], ◌∷◌, ◌++◌, Bool, true, false, ◌≡◌, refl, sym, ap, subst,
  ◌∙◌, arith, Option, none, some, if◌then◌else◌,
}
use protean.Strings.{Text, same}
use protean.Strings.Laws.{same_iff}
use protean.Console.{
  Config, Hub, update, new_hub, has_capacity, mint_check, mint_store, consume, Lease, grant,
  acquire, release,
}

-- The hub, and the release functions that it has handed out.
pub record System : Type 0 where
  pub hub : Hub
  pub leases : List Lease

abbrev live : Lease → ℕ
live l = if l.released then 0 else 1

abbrev live_of : Text → Lease → ℕ
live_of u l = if l.released then 0 else if same l.user u then 1 else 0

abbrev pub sum {ℓ} : {A : Type ℓ} → (A → ℕ) → List A → ℕ
sum f [] = 0
sum f (x ∷ xs) = f x + sum f xs

sum-snoc {ℓ} :
    {A : Type ℓ} (f : A → ℕ) (xs : List A) (x : A) → sum f (xs ++ x ∷ []) ≡ sum f xs + f x
sum-snoc f [] x = omega arith
sum-snoc f (y ∷ xs) x = omega (arith, sum-snoc f xs x)

-- a session is opened, where the caps allow it
unfoldable pub opened : System → Hub × Option Lease → System
opened s (h, none) = record s { hub = h }
opened s (h, some l) = record { hub = h; leases = s.leases ++ l ∷ [] }

unfoldable pub open_session : Text → System → System
unfolding opened
open_session user s = opened s (acquire user s.hub)

-- The `i`-th release function is called; it may be called again.
unfoldable pub close_in : ℕ → List Lease → Hub → List Lease × Hub
close_in i [] h = ([], h)
close_in zero (l ∷ ls) h = let (l', h') = release l h in (l' ∷ ls, h')
close_in (suc i) (l ∷ ls) h = let (ls', h') = close_in i ls h in (l ∷ ls', h')

unfoldable pub close_session : ℕ → System → System
unfolding close_in
close_session i s = let (ls, h) = close_in i s.leases s.hub in record { hub = h; leases = ls }

-- The counts are those of the sessions that are open, and they keep within the caps.
pub record IsWithin (h : Hub) (ls : List Lease) : Type 0 where
  pub total_counts : h.total ≡ sum live ls
  pub user_counts : (u : Text) → h.by_user u ≡ sum (live_of u) ls
  pub total_cap : 0 < h.cfg.max_total → h.total ≤ h.cfg.max_total
  pub user_cap : 0 < h.cfg.max_per_user → (u : Text) → h.by_user u ≤ h.cfg.max_per_user

-- What the capacity check says.
capacity_total :
    (h : Hub) (u : Text)
    → has_capacity h u ≡ true
    → 0 < h.cfg.max_total
    → h.total + 1 ≤ h.cfg.max_total
unfolding has_capacity
capacity_total h u e = ground arith

capacity_user :
    (h : Hub) (u : Text)
    → has_capacity h u ≡ true
    → 0 < h.cfg.max_per_user
    → h.by_user u + 1 ≤ h.cfg.max_per_user
unfolding has_capacity
capacity_user h u e = ground arith

same_at : (f : Text → ℕ) (a b : Text) → same a b ≡ true → f a ≡ f b
same_at f a b e = ap f ((same_iff a b).0 e)

grant-IsWithin :
    (user : Text) (s : System) (b : Bool)
    → has_capacity s.hub user ≡ b
    → IsWithin s.hub s.leases
    → IsWithin (opened s (grant b user s.hub)).hub (opened s (grant b user s.hub)).leases
unfolding opened grant
grant-IsWithin user s false e v = v
grant-IsWithin user s true e v = record {
  total_counts = omega (arith, v.total_counts, sum-snoc live s.leases fresh);
  user_counts = λ u. counts u (v.user_counts u) (v.user_counts user);
  total_cap = capacity_total s.hub user e;
  user_cap = λ p u. capped p u (v.user_cap p u) (capacity_user s.hub user e p);
}
  where
    fresh : Lease
    fresh = record { user = user; released = false }

    counts :
        (u : Text)
        → s.hub.by_user u ≡ sum (live_of u) s.leases
        → s.hub.by_user user ≡ sum (live_of user) s.leases
        → update s.hub.by_user user (s.hub.by_user user + 1) u
          ≡ sum (live_of u) (s.leases ++ fresh ∷ [])
    counts u p q = ground (
      arith,
      sum-snoc (live_of u) s.leases fresh,
      same_iff user u,
      same_at s.hub.by_user user u,
      same_at (λ k. sum (live_of k) s.leases) user u,
    )

    capped :
        0 < s.hub.cfg.max_per_user
        → (u : Text) → s.hub.by_user u ≤ s.hub.cfg.max_per_user
        → s.hub.by_user user + 1 ≤ s.hub.cfg.max_per_user
        → update s.hub.by_user user (s.hub.by_user user + 1) u ≤ s.hub.cfg.max_per_user
    capped p u a b = ground arith

-- one release changes the counts as it changes the sums
release_counts :
    (l : Lease) (h : Hub) (rest : ℕ)
    → h.total ≡ live l + rest
    → (release l h).1.total ≡ live (release l h).0 + rest
unfolding release
release_counts l h rest e = ground arith

release_user_counts :
    (l : Lease) (h : Hub) (u : Text) (rest : ℕ)
    → h.by_user u ≡ live_of u l + rest
    → (release l h).1.by_user u ≡ live_of u (release l h).0 + rest
unfolding release
release_user_counts l h u rest e = ground (arith, same_iff l.user u)

release_smaller :
    (l : Lease) (h : Hub) (u : Text)
    → ((release l h).1.total ≤ h.total)
      × ((release l h).1.by_user u ≤ h.by_user u)
      × ((release l h).1.cfg ≡ h.cfg)
unfolding release
release_smaller l h u = (ground arith, ground (arith, same_at h.by_user l.user u), ground arith)

close_counts :
    (i : ℕ) (ls : List Lease) (h : Hub) (extra : ℕ)
    → h.total ≡ extra + sum live ls
    → (close_in i ls h).1.total ≡ extra + sum live (close_in i ls h).0
unfolding close_in
close_counts i [] h extra e = e
close_counts zero (l ∷ ls) h extra e =
    omega (arith, release_counts l h (extra + sum live ls) (omega arith))
close_counts (suc i) (l ∷ ls) h extra e =
    omega (arith, close_counts i ls h (extra + live l) (omega arith))

close_user_counts :
    (i : ℕ) (ls : List Lease) (h : Hub) (u : Text) (extra : ℕ)
    → h.by_user u ≡ extra + sum (live_of u) ls
    → (close_in i ls h).1.by_user u ≡ extra + sum (live_of u) (close_in i ls h).0
unfolding close_in
close_user_counts i [] h u extra e = e
close_user_counts zero (l ∷ ls) h u extra e =
    omega (arith, release_user_counts l h u (extra + sum (live_of u) ls) (omega arith))
close_user_counts (suc i) (l ∷ ls) h u extra e =
    omega (arith, close_user_counts i ls h u (extra + live_of u l) (omega arith))

close_smaller :
    (i : ℕ) (ls : List Lease) (h : Hub) (u : Text)
    → ((close_in i ls h).1.total ≤ h.total)
      × ((close_in i ls h).1.by_user u ≤ h.by_user u)
      × ((close_in i ls h).1.cfg ≡ h.cfg)
unfolding close_in
close_smaller i [] h u = (omega arith, omega arith, refl)
close_smaller zero (l ∷ ls) h u = release_smaller l h u
close_smaller (suc i) (l ∷ ls) h u = close_smaller i ls h u

close-IsWithin :
    (i : ℕ) (s : System)
    → IsWithin s.hub s.leases
    → IsWithin (close_session i s).hub (close_session i s).leases
unfolding close_session
close-IsWithin i s v = record {
  total_counts = omega (arith, close_counts i s.leases s.hub 0 (omega (arith, v.total_counts)));
  user_counts =
      λ u. omega (arith, close_user_counts i s.leases s.hub u 0 (omega (arith, v.user_counts u)));
  total_cap = λ p. total (close_smaller i s.leases s.hub []) p;
  user_cap = λ p u. user u (close_smaller i s.leases s.hub u) p;
}
  where
    h' : Hub
    h' = (close_in i s.leases s.hub).1

    total :
        (h'.total ≤ s.hub.total) × (h'.by_user [] ≤ s.hub.by_user []) × (h'.cfg ≡ s.hub.cfg)
        → 0 < h'.cfg.max_total
        → h'.total ≤ h'.cfg.max_total
    total (a, b, c) p =
        let m : h'.cfg.max_total ≡ s.hub.cfg.max_total = ap (λ (k : Config). k.max_total) c in
        omega (arith, a, m, v.total_cap (omega (arith, m, p)))

    user :
        (u : Text)
        → (h'.total ≤ s.hub.total) × (h'.by_user u ≤ s.hub.by_user u) × (h'.cfg ≡ s.hub.cfg)
        → 0 < h'.cfg.max_per_user
        → h'.by_user u ≤ h'.cfg.max_per_user
    user u (a, b, c) p =
        let m : h'.cfg.max_per_user ≡ s.hub.cfg.max_per_user =
          ap (λ (k : Config). k.max_per_user) c in
        omega (arith, b, m, v.user_cap (omega (arith, m, p)) u)

-- What clients and handlers do, in the order of the mutex.
pub data Act : Type 0 where
  opening : Text → Act
  closing : ℕ → Act
  minting consuming : Text → ℕ → Act
  minted : Text → Text → Text → ℕ → Act

unfoldable pub act : System → Act → System
unfolding open_session close_session
act s (opening user) = open_session user s
act s (closing i) = close_session i s
act s (minting user now) = record s { hub = (mint_check user now s.hub).0 }
act s (consuming tok now) = record s { hub = (consume tok now s.hub).0 }
act s (minted tok user target now) = record s { hub = mint_store tok user target now s.hub }

unfoldable pub perform : System → List Act → System
unfolding act
perform s [] = s
perform s (a ∷ as') = perform (act s a) as'

-- Tickets have no part in the counts.
same_counts :
    (a b : Hub) (ls : List Lease)
    → b.cfg ≡ a.cfg
    → b.by_user ≡ a.by_user
    → b.total ≡ a.total
    → IsWithin a ls
    → IsWithin b ls
same_counts a b ls c u t v = record {
  total_counts = t ∙ v.total_counts;
  user_counts = λ k. (λ i. u i k) ∙ v.user_counts k;
  total_cap =
      subst (λ (cfg : Config). 0 < cfg.max_total → b.total ≤ cfg.max_total) (sym c)
        (subst (λ n. 0 < a.cfg.max_total → n ≤ a.cfg.max_total) (sym t) v.total_cap);
  user_cap =
      subst (λ (cfg : Config). 0 < cfg.max_per_user → (k : Text) → b.by_user k ≤ cfg.max_per_user)
        (sym c)
        (subst (λ (f : Text → ℕ). 0 < a.cfg.max_per_user → (k : Text) → f k ≤ a.cfg.max_per_user)
          (sym u) v.user_cap);
}

act-IsWithin :
    (s : System) (a : Act) → IsWithin s.hub s.leases → IsWithin (act s a).hub (act s a).leases
act-IsWithin s (opening user) v =
    unfold act acquire in grant-IsWithin user s (has_capacity s.hub user) refl v
act-IsWithin s (closing i) v = unfold act in close-IsWithin i s v
act-IsWithin s (minting user now) v =
    unfold act in
    same_counts s.hub (mint_check user now s.hub).0 s.leases (unfold mint_check in ground arith)
      (unfold mint_check in ground arith) (unfold mint_check in ground arith) v
act-IsWithin s (consuming tok now) v =
    unfold act in
    same_counts s.hub (consume tok now s.hub).0 s.leases (unfold consume in ground arith)
      (unfold consume in ground arith) (unfold consume in ground arith) v
act-IsWithin s (minted tok user target now) v =
    unfold act in
    same_counts s.hub (mint_store tok user target now s.hub) s.leases (unfold mint_store in refl)
      (unfold mint_store in refl) (unfold mint_store in refl) v

perform-IsWithin :
    (s : System) (acts : List Act)
    → IsWithin s.hub s.leases
    → IsWithin (perform s acts).hub (perform s acts).leases
unfolding perform
perform-IsWithin s [] v = v
perform-IsWithin s (a ∷ acts) v = perform-IsWithin (act s a) acts (act-IsWithin s a v)

-- From a new hub, whatever is done in whatever order, release functions called again included: the
-- counts are those of the sessions that are open, in all and for each user, and neither passes its
-- cap, where there is one.
pub hub-IsWithin :
    (cfg : Config) (acts : List Act)
    → IsWithin
        (perform (record { hub = new_hub cfg; leases = [] }) acts).hub
        (perform (record { hub = new_hub cfg; leases = [] }) acts).leases
hub-IsWithin cfg acts =
    perform-IsWithin (record { hub = new_hub cfg; leases = [] }) acts (unfold new_hub in empty)
  where
    empty : IsWithin (new_hub cfg) []
    empty =
        unfold new_hub in
        record {
          total_counts = refl;
          user_counts = λ u. refl;
          total_cap = λ p. omega arith;
          user_cap = λ p u. omega arith;
        }
