-- ===== src/Accounts/Roles.antt =====
-- Which role the groups of a directory give.
use protean.Prelude.{
  List, [], ◌∷◌, Bool, true, false, ◌≡◌, refl, ◌↔◌, inl, inr, Option, none, some, Any, ◌&&◌, ◌||◌,
  Bool-cases, both,
}
use protean.Strings.{Text, member}
use protean.Strings.Laws.{member→Any, Any→member}
use protean.Accounts.{Role, admin, user, GroupRule, same_role}
use protean.Accounts.Manager.{lists_role, resolve_role_from_rules}

pub same_role_iff : (a b : Role) → (same_role a b ≡ true) ↔ (a ≡ b)
unfolding same_role
same_role_iff admin admin = (λ _. refl, λ _. refl)
same_role_iff user user = (λ _. refl, λ _. refl)
same_role_iff admin user = (λ h. cc, λ h. cc)
same_role_iff user admin = (λ h. cc, λ h. cc)

or_right : (a b : Bool) → a || b ≡ true → a ≡ false → b ≡ true
or_right true b h e = cc
or_right false b h e = h

or_true : (a : Bool) {b : Bool} → b ≡ true → a || b ≡ true
or_true true h = refl
or_true false h = h

-- A rule gives the role to one of the groups.
abbrev pub Gives : Role → List Text → GroupRule → Type 0
Gives role groups r = (r.role ≡ role) × Any (λ g. g ≡ r.group_value) groups

lists_role_iff :
    (role : Role) (rules : List GroupRule) (groups : List Text)
    → (lists_role role rules groups ≡ true) ↔ Any (Gives role groups) rules
unfolding lists_role
lists_role_iff role [] groups = (λ h. cc, λ h. absurd h)
lists_role_iff role (r ∷ rs) groups = (
  λ h. elim (Bool-cases (same_role r.role role && member r.group_value groups)) [
    | inl hit ↦
        inl
          ((same_role_iff r.role role).0 (both hit).0, member→Any r.group_value groups (both hit).1)
    | inr miss ↦ inr (
        (lists_role_iff role rs groups).0 (
          or_right (same_role r.role role && member r.group_value groups)
            (lists_role role rs groups) h miss))
  ],
  λ h. elim h [
    | inl (same_one, among) ↦
        rw ((same_role_iff r.role role).1 same_one) (rw (Any→member r.group_value groups among))
    | inr later ↦
        or_true (same_role r.role role && member r.group_value groups)
          ((lists_role_iff role rs groups).1 later)
  ],
)

unlisted :
    (role : Role) (rules : List GroupRule) (groups : List Text)
    → lists_role role rules groups ≡ false
    → ¬ Any (Gives role groups) rules
unlisted role rules groups e h =
    let listed : lists_role role rules groups ≡ true = (lists_role_iff role rules groups).1 h in cc

-- What the role that was resolved says of the rules.
abbrev pub Resolves : List GroupRule → List Text → Option Role → Type 0
Resolves rules groups (some admin) = Any (Gives admin groups) rules
Resolves rules groups (some user) = Any (Gives user groups) rules × ¬ Any (Gives admin groups) rules
Resolves rules groups none = ¬ Any (Gives user groups) rules × ¬ Any (Gives admin groups) rules

-- A directory login gets the role admin if a rule gives that role to one of its groups, the role user
-- if no rule gives it the role admin and one the role user, and none exactly if no rule gives it one.
pub resolve_role_from_rules-Resolves :
    (rules : List GroupRule) (groups : List Text)
    → Resolves rules groups (resolve_role_from_rules rules groups)
unfolding resolve_role_from_rules
resolve_role_from_rules-Resolves rules groups = elim (Bool-cases (lists_role admin rules groups)) [
  | inl a ↦ rw a ((lists_role_iff admin rules groups).0 a)
  | inr no_admin ↦ elim (Bool-cases (lists_role user rules groups)) [
    | inl u ↦
        rw no_admin
          (rw u ((lists_role_iff user rules groups).0 u, unlisted admin rules groups no_admin))
    | inr no_user ↦
        rw no_admin
          (rw no_user (unlisted user rules groups no_user, unlisted admin rules groups no_admin))
  ]
]
