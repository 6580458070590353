-- ===== src/Firewall/Preview.antt =====
-- `Diff`: what the preview of a change shows, and what `ComputeBaseline` gathers.
use protean.Prelude.{
  ℕ, List, [], ◌∷◌, Bool, true, false, not, ◌&&◌, ◌≡◌, ◌⊎◌, inl, inr, ◌↔◌, refl, ap, arith, ◌<◌,
  Any, if◌then◌else◌, ◌==◌, Any-append_left, Any-append_right, Any-append_split,
}
use protean.Strings.{Text, same, member}
use protean.Strings.Laws.{same_iff}
use protean.Firewall.{
  Port, panel_port, panel_ports, instance_ports, ssh, compute_baseline, lines_outside,
  split_non_empty, diff,
}
use protean.Firewall.Baseline.{IsIn}

same-member : (k l : Text) (set : List Text) → same k l ≡ true → member k set ≡ member l set
same-member k l set e = ap (λ t. member t set) ((same_iff k l).0 e)

member-lines_outside :
    (l : Text) (ls set : List Text)
    → member l (lines_outside ls set) ≡ (member l ls && not (member l set))
unfolding lines_outside member
member-lines_outside l [] set = refl
member-lines_outside l (k ∷ ls) set =
    ground (arith, same-member k l set, member-lines_outside l ls set)

-- A line is shown as added exactly if the proposed text has it and the current one does not, and as
-- removed the other way round.
pub member-diff :
    (current proposed l : Text)
    → (member l (diff current proposed).0
        ≡ (member l (split_non_empty proposed) && not (member l (split_non_empty current))))
      × (member l (diff current proposed).1
          ≡ (member l (split_non_empty current) && not (member l (split_non_empty proposed))))
member-diff current proposed l =
    unfold diff in
    (
      member-lines_outside l (split_non_empty proposed) (split_non_empty current),
      member-lines_outside l (split_non_empty current) (split_non_empty proposed),
    )

-- an instance that listens, and a port of the panel
abbrev pub IsListening : Port → List Port → Type 0
IsListening b = Any (λ i. (0 < i.number) × (i ≡ b))

abbrev pub IsPanel : Port → List ℕ → Type 0
IsPanel b = Any (λ n. (0 < n) × (panel_port n ≡ b))

instance_ports-IsIn : (b : Port) (ps : List Port) → IsIn b (instance_ports ps) ↔ IsListening b ps
unfolding instance_ports
instance_ports-IsIn b [] = ((λ h. h), (λ h. h))
instance_ports-IsIn b (p ∷ ps) = pick (p.number == 0) refl (instance_ports-IsIn b ps)
  where
    pick :
        (t : Bool)
        → (p.number == 0) ≡ t
        → (IsIn b (instance_ports ps) ↔ IsListening b ps)
        → IsIn b (if t then instance_ports ps else p ∷ instance_ports ps) ↔ IsListening b (p ∷ ps)
    pick true e more = (
      (λ h. inr (more.0 h)),
      (λ h. elim h [ inl (pos, q) ↦ absurd (ground arith) | inr m ↦ more.1 m ]),
    )
    pick false e more = (
      (λ h. elim h [ inl q ↦ inl (ground arith, q) | inr m ↦ inr (more.0 m) ]),
      (λ h. elim h [ inl (pos, q) ↦ inl q | inr m ↦ inr (more.1 m) ]),
    )

panel_ports-IsIn : (b : Port) (ns : List ℕ) → IsIn b (panel_ports ns) ↔ IsPanel b ns
unfolding panel_ports
panel_ports-IsIn b [] = ((λ h. h), (λ h. h))
panel_ports-IsIn b (n ∷ ns) = pick (n == 0) refl (panel_ports-IsIn b ns)
  where
    pick :
        (t : Bool)
        → (n == 0) ≡ t
        → (IsIn b (panel_ports ns) ↔ IsPanel b ns)
        → IsIn b (if t then panel_ports ns else panel_port n ∷ panel_ports ns) ↔ IsPanel b (n ∷ ns)
    pick true e more = (
      (λ h. inr (more.0 h)),
      (λ h. elim h [ inl (pos, q) ↦ absurd (ground arith) | inr m ↦ more.1 m ]),
    )
    pick false e more = (
      (λ h. elim h [ inl q ↦ inl (ground arith, q) | inr m ↦ inr (more.0 m) ]),
      (λ h. elim h [ inl (pos, q) ↦ inl q | inr m ↦ inr (more.1 m) ]),
    )

IsPanel-panel_ports :
    (b : Port) (host : Bool) (ns : List ℕ)
    → IsIn b (if host then panel_ports ns else []) ↔ ((host ≡ true) × IsPanel b ns)
IsPanel-panel_ports b true ns =
    ((λ h. (refl, (panel_ports-IsIn b ns).0 h)), (λ h. (panel_ports-IsIn b ns).1 h.1))
IsPanel-panel_ports b false ns = ((λ h. absurd h), (λ h. cc))

-- The baseline holds the SSH port, the port of each instance that listens and, on the panel's host,
-- each port of the panel that is not 0; and nothing else.
pub compute_baseline_iff :
    (n : ℕ) (instances : List Port) (host : Bool) (ports : List ℕ) (b : Port)
    → IsIn b (compute_baseline n instances host ports)
      ↔ ((ssh n ≡ b) ⊎ (IsListening b instances ⊎ ((host ≡ true) × IsPanel b ports)))
unfolding compute_baseline
compute_baseline_iff n instances host ports b =
    let l = instance_ports instances in
    let r = if host then panel_ports ports else [] in
    (
      (λ h. elim h [
        | inl e ↦ inl e
        | inr m ↦ elim (Any-append_split (λ c. c ≡ b) l r m) [
          | inl i ↦ inr (inl ((instance_ports-IsIn b instances).0 i))
          | inr p ↦ inr (inr ((IsPanel-panel_ports b host ports).0 p))
        ]
      ]),
      (λ h. elim h [
        | inl e ↦ inl e
        | inr (inl i) ↦
            inr (Any-append_left (λ c. c ≡ b) l r ((instance_ports-IsIn b instances).1 i))
        | inr (inr p) ↦
            inr (Any-append_right (λ c. c ≡ b) l r ((IsPanel-panel_ports b host ports).1 p))
      ]),
    )
