-- ===== src/Conf/Managed/Laws.antt =====
-- What `SetManagedNetworking` leaves and what it writes.
use protean.Prelude.{
  List, [], ◌∷◌, ◌++◌, Bool, true, false, ◌&&◌, ◌||◌, ◌≡◌, refl, ap₂, ◌∙◌, arith, append-nil,
}
use protean.Strings.{Text}
use protean.Conf.{Kv, ConfFile}
use protean.Conf.Managed.Rules.{
  AllManaged, managed_rules-AllManaged, any-append, any-managed_rules, some_managed,
}
use protean.Conf.Managed.{
  Backend, is_managed_rule, is_managed_nat, any, has_managed_forwarding, has_managed_nat, unmanaged,
  with_egress, managed_rules, set_managed_networking,
}

unmanaged-append : (xs ys : List Kv) → unmanaged (xs ++ ys) ≡ unmanaged xs ++ unmanaged ys
unfolding unmanaged
unmanaged-append [] ys = refl
unmanaged-append (x ∷ xs) ys = ground (arith, unmanaged-append xs ys)

unmanaged_none : (xs : List Kv) → AllManaged xs → unmanaged xs ≡ []
unfolding unmanaged
unmanaged_none [] h = refl
unmanaged_none (x ∷ xs) h = ground (arith, unmanaged_none xs h.1)

unmanaged_idem : (xs : List Kv) → unmanaged (unmanaged xs) ≡ unmanaged xs
unfolding unmanaged
unmanaged_idem [] = refl
unmanaged_idem (x ∷ xs) = ground (arith, unmanaged_idem xs)

any-unmanaged : (xs : List Kv) → any is_managed_rule (unmanaged xs) ≡ false
unfolding unmanaged
any-unmanaged [] = refl
any-unmanaged (x ∷ xs) = ground (arith, any-unmanaged xs)

nat-unmanaged : (xs : List Kv) → any is_managed_nat (unmanaged xs) ≡ false
unfolding unmanaged is_managed_nat
nat-unmanaged [] = refl
nat-unmanaged (x ∷ xs) = ground (arith, nat-unmanaged xs)

-- After `SetManagedNetworking` the operator's own lines are there as before and in their order, the
-- peers are untouched, managed rules show exactly if forwarding is wanted, and managed NAT exactly
-- if forwarding and egress are wanted and the tunnel network and the outer interface are known.
pub set_managed_networking_lem :
    (cf : ConfFile) (backend : Backend) (forwarding egress : Bool) (tunnel wan : Text)
    → (unmanaged (set_managed_networking cf backend forwarding egress tunnel wan).interface_opts
        ≡ unmanaged cf.interface_opts)
      × ((set_managed_networking cf backend forwarding egress tunnel wan).peers ≡ cf.peers)
      × (has_managed_forwarding (set_managed_networking cf backend forwarding egress tunnel wan)
          ≡ forwarding)
      × (has_managed_nat (set_managed_networking cf backend forwarding egress tunnel wan)
          ≡ (forwarding && with_egress egress tunnel wan))
set_managed_networking_lem cf backend true egress tunnel wan =
    let kept = unmanaged cf.interface_opts in
    let rules = managed_rules backend egress tunnel wan in
    unfold set_managed_networking has_managed_forwarding has_managed_nat in
    (
      unmanaged-append kept rules
          ∙ ap₂ (λ xs ys. xs ++ ys) (unmanaged_idem cf.interface_opts)
              (unmanaged_none rules (managed_rules-AllManaged backend egress tunnel wan))
          ∙ append-nil (unmanaged cf.interface_opts),
      refl,
      any-append is_managed_rule kept rules
          ∙ ap₂ (λ b c. b || c) (any-unmanaged cf.interface_opts)
              (some_managed backend egress tunnel wan),
      any-append is_managed_nat kept rules
          ∙ ap₂ (λ b c. b || c) (nat-unmanaged cf.interface_opts)
              (any-managed_rules backend egress tunnel wan),
    )
set_managed_networking_lem cf backend false egress tunnel wan =
    unfold set_managed_networking has_managed_forwarding has_managed_nat in
    (
      unmanaged_idem cf.interface_opts,
      refl,
      any-unmanaged cf.interface_opts,
      nat-unmanaged cf.interface_opts,
    )

-- The result depends on the operator's lines and the peers alone.
set_managed_networking_congr :
    (a b : ConfFile) (backend : Backend) (f e : Bool) (t w : Text)
    → unmanaged a.interface_opts ≡ unmanaged b.interface_opts
    → a.peers ≡ b.peers
    → set_managed_networking a backend f e t w ≡ set_managed_networking b backend f e t w
unfolding set_managed_networking
set_managed_networking_congr a b backend true e t w p q =
    λ i. record { interface_opts = p i ++ managed_rules backend e t w; peers = q i }
set_managed_networking_congr a b backend false e t w p q =
    λ i. record { interface_opts = p i; peers = q i }

-- Setting the networking again replaces what was set before.
pub set_managed_networking_twice :
    (cf : ConfFile) (backend backend' : Backend) (f f' e e' : Bool) (t t' w w' : Text)
    → set_managed_networking (set_managed_networking cf backend f e t w) backend' f' e' t' w'
      ≡ set_managed_networking cf backend' f' e' t' w'
set_managed_networking_twice cf backend backend' f f' e e' t t' w w' =
    let (lines, peers, shown, natted) = set_managed_networking_lem cf backend f e t w in
    set_managed_networking_congr (set_managed_networking cf backend f e t w) cf backend' f' e' t' w'
      lines peers
