-- ===== src/Overlap/Laws.antt =====
-- Two networks overlap exactly when they share an address.
use native.Mathlib.Decide.{dec_le}
use native.Mathlib.Nat.{div-div-eq-div-mul, pow-suc, mul_assoc, add-zero}
use protean.Prelude.{
  ℕ, zero, suc, ◌+◌, ◌-◌, ◌*◌, ◌/◌, ◌^◌, ◌≤◌, ◌≡◌, ◌↔◌, ◌⊎◌, inl, inr, refl, sym, ap, subst, ◌∙◌,
  List, [], ◌∷◌, Bool, true, false, ◌||◌, Option, none, some, arith, length, Bool-cases,
  Option-cases, All, Any, ==_iff, if◌then◌else◌,
}
use protean.Strings.{Text}
use protean.Net.{Ip, IpNet, value, short, block, contains}
use protean.Net.Parse.{parse_cidr}
use protean.Ipam.Step.{contains-lem}
use protean.Overlap.{
  cidr_overlap, Check, clear, invalid, overlaps, check_entry, check_entries, check_no_overlap,
}

add_suc_right : (i d : ℕ) → i + suc d ≡ suc (i + d)
add_suc_right i d = omega arith

pow_add : (i d : ℕ) → 2 ^ (i + d) ≡ 2 ^ i * 2 ^ d
pow_add i zero = rw (add-zero i) (omega arith)
pow_add i (suc d) =
    rw (add_suc_right i d, pow-suc 2 (i + d), pow-suc 2 d, pow_add i d)
      (mul_assoc (2 ^ i) (2 ^ d) 2)

-- where the finer quotients agree the coarser ones do
coarser : (v w i d : ℕ) → v / 2 ^ i ≡ w / 2 ^ i → v / 2 ^ (i + d) ≡ w / 2 ^ (i + d)
coarser v w i d e = rw (pow_add i d) (
    sym (div-div-eq-div-mul v (2 ^ i) (2 ^ d))
    ∙ ap (λ q. q / 2 ^ d) e
    ∙ div-div-eq-div-mul w (2 ^ i) (2 ^ d))

contains-intro :
    (n : IpNet) (ip : Ip)
    → length (short ip) ≡ length (short n.ip)
    → value (short ip) / block n ≡ value (short n.ip) / block n
    → contains n ip ≡ true
unfolding contains
contains-intro n ip l q = rw ((==_iff _ _).1 l, (==_iff _ _).1 q)

-- A network contains its own address.
contains_self : (n : IpNet) → contains n n.ip ≡ true
contains_self n = contains-intro n n.ip refl refl

-- A network with an address in a network of longer or equal prefix contains that network's address.
contains_base :
    (a b : IpNet) (x : Ip)
    → a.bits - a.ones ≤ b.bits - b.ones
    → contains a x ≡ true
    → contains b x ≡ true
    → contains b a.ip ≡ true
unfolding block
contains_base a b x le ca cb =
    let (la, qa) = contains-lem a x ca in
    let (lb, qb) = contains-lem b x cb in
    contains-intro b a.ip (sym la ∙ lb) (sym (go (value (short x)) (value (short a.ip)) qa) ∙ qb)
  where
    go :
        (v w : ℕ)
        → v / 2 ^ (a.bits - a.ones) ≡ w / 2 ^ (a.bits - a.ones)
        → v / 2 ^ (b.bits - b.ones) ≡ w / 2 ^ (b.bits - b.ones)
    go v w e =
        let i = a.bits - a.ones in
        let d = b.bits - b.ones - i in
        let sum : i + d ≡ b.bits - b.ones = omega arith in
        subst (λ k. v / 2 ^ k ≡ w / 2 ^ k) sum (coarser v w i d e)

-- Two networks overlap, as `CIDROverlap` tests it, exactly when some address lies in both.
pub cidr_overlap_iff :
    (a b : IpNet)
    → (cidr_overlap a b ≡ true) ↔ ((x : Ip) × (contains a x ≡ true) × (contains b x ≡ true))
unfolding cidr_overlap
cidr_overlap_iff a b = (shared, meets)
  where
    shared :
        (contains a b.ip || contains b a.ip) ≡ true
        → (x : Ip) × (contains a x ≡ true) × (contains b x ≡ true)
    shared h = elim (Bool-cases (contains a b.ip)) [
      | inl e ↦ (b.ip, e, contains_self b)
      | inr e ↦ (a.ip, contains_self a, ground arith)
    ]

    meets :
        ((x : Ip) × (contains a x ≡ true) × (contains b x ≡ true))
        → (contains a b.ip || contains b a.ip) ≡ true
    meets (x, ca, cb) = elim (dec_le (a.bits - a.ones) (b.bits - b.ones)) [
      | yes le ↦ let e = contains_base a b x le ca cb in ground arith
      | no gt ↦ let e = contains_base b a x (omega arith) cb ca in ground arith
    ]

-- An existing entry is apart from the candidate: where it parses, no address lies in both.
abbrev pub IsApart : IpNet → Text → Type 0
IsApart candidate e =
    (ip : Ip) (net : IpNet)
    → parse_cidr e ≡ some (ip, net)
    → (x : Ip) → contains candidate x ≡ true
    → contains net x ≡ true
    → ⊥

-- The entry parses, and some address lies in both.
abbrev pub Shares : IpNet → Text → Type 0
Shares candidate e =
    (net : IpNet) × (ip : Ip) × (x : Ip) × (parse_cidr e ≡ some (ip, net))
    × (contains candidate x ≡ true)
    × (contains net x ≡ true)

-- What each answer of the check says of the candidate and the entries.
abbrev pub Verdict : IpNet → List Text → Check → Type 0
Verdict candidate es clear = All (IsApart candidate) es
Verdict candidate es invalid = ⊥
Verdict candidate es (overlaps e) = Any (λ d. d ≡ e) es × Shares candidate e

module _ (candidate : IpNet) (e : Text) (es : List Text) where
  further :
      (r : Check) → IsApart candidate e → Verdict candidate es r → Verdict candidate (e ∷ es) r
  further clear a v = (a, v)
  further invalid a v = v
  further (overlaps d) a (m, s) = (inr m, s)

  entry-Verdict :
      (o : Option (Ip × IpNet)) (r : Check)
      → parse_cidr e ≡ o
      → Verdict candidate es r
      → Verdict candidate (e ∷ es) (check_entry candidate e o r)
  unfolding check_entry
  entry-Verdict none r p v = further r (λ ip net q x ca cn. cc) v
  entry-Verdict (some (ip, net)) r p v = pick (cidr_overlap candidate net) refl
    where
      apart : cidr_overlap candidate net ≡ false → IsApart candidate e
      apart c ip' net' q x ca cn =
          let same_net : net' ≡ net = cc (p, q) in
          let c' = (cidr_overlap_iff candidate net).1 (x, ca, rw same_net at cn) in cc (c, c')

      shares : cidr_overlap candidate net ≡ true → Shares candidate e
      shares c = let (x, ca, cn) = (cidr_overlap_iff candidate net).0 c in (net, ip, x, p, ca, cn)

      pick :
          (b : Bool)
          → cidr_overlap candidate net ≡ b
          → Verdict candidate (e ∷ es) (if b then overlaps e else r)
      pick true c = (inl refl, shares c)
      pick false c = further r (apart c) v

check_entries-Verdict :
    (candidate : IpNet) (es : List Text) → Verdict candidate es (check_entries candidate es)
unfolding check_entries
check_entries-Verdict candidate [] = tt
check_entries-Verdict candidate (e ∷ es) =
    entry-Verdict candidate e es (parse_cidr e) (check_entries candidate es) refl
      (check_entries-Verdict candidate es)

-- `CheckNoOverlap` refuses exactly a candidate that does not parse, accepts one only if no address
-- lies both in it and in an existing network, and else names an existing entry with which it shares
-- an address.
pub check_no_overlap-Verdict :
    (candidate : Text) (es : List Text)
    → ((check_no_overlap candidate es ≡ invalid) × (parse_cidr candidate ≡ none))
      ⊎ ((net : IpNet) × (ip : Ip) × (parse_cidr candidate ≡ some (ip, net))
          × Verdict net es (check_no_overlap candidate es))
unfolding check_no_overlap
check_no_overlap-Verdict candidate es = elim (Option-cases (parse_cidr candidate)) [
  | inl p ↦ inl (rw (p, check_no_overlap), p)
  | inr ((ip, net), p) ↦
      let runs : check_no_overlap candidate es ≡ check_entries net es = rw (p, check_no_overlap) in
      inr (net, ip, p, subst (Verdict net es) (sym runs) (check_entries-Verdict net es))
]
