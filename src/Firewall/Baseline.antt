-- ===== src/Firewall/Baseline.antt =====
-- The ports that are never locked out, and their place in front of the admin's rules.
use protean.Prelude.{
  List, [], ◌∷◌, ◌++◌, map, Bool, true, false, ◌≡◌, ◌⊎◌, inl, inr, refl, sym, ap, subst, ◌∙◌, arith,
  append_assoc, Any, All, Any-append_right, All-append, if◌then◌else◌,
}
use protean.Strings.{Text, codes, member}
use protean.Strings.Laws.{member-append, same_refl}
use protean.Strings.Decimal.{itoa}
use protean.Conf.Options.{equal_fold}
use protean.Firewall.{
  Port, FirewallRule, comes_before, insert, sorted, baseline_line, render_rule, header,
  rendered_lines, written, render_firewall, escape_comment,
}

abbrev pub IsIn : Port → List Port → Type 0
IsIn b = Any (λ c. c ≡ b)

-- an insertion, by the outcome of its test
insert_front :
    (b a c : Port) (cs : List Port) (t : Bool)
    → ((b ≡ a) ⊎ IsIn b cs → IsIn b (insert a cs))
    → (b ≡ a) ⊎ IsIn b (c ∷ cs)
    → IsIn b (if t then c ∷ insert a cs else a ∷ c ∷ cs)
insert_front b a c cs true more (inl e) = inr (more (inl e))
insert_front b a c cs true more (inr (inl e)) = inl e
insert_front b a c cs true more (inr (inr m)) = inr (more (inr m))
insert_front b a c cs false more (inl e) = inl (sym e)
insert_front b a c cs false more (inr m) = inr m

insert-IsIn : (b a : Port) (cs : List Port) → (b ≡ a) ⊎ IsIn b cs → IsIn b (insert a cs)
unfolding insert
insert-IsIn b a [] (inl e) = inl (sym e)
insert-IsIn b a [] (inr h) = absurd h
insert-IsIn b a (c ∷ cs) h = insert_front b a c cs (comes_before c a) (insert-IsIn b a cs) h

sorted-IsIn : (b : Port) (ps : List Port) → IsIn b ps → IsIn b (sorted ps)
unfolding sorted
sorted-IsIn b [] h = absurd h
sorted-IsIn b (a ∷ ps) (inl e) = insert-IsIn b a (sorted ps) (inl (sym e))
sorted-IsIn b (a ∷ ps) (inr m) = insert-IsIn b a (sorted ps) (inr (sorted-IsIn b ps m))

-- A property of the ports of a list holds of those that are inserted and sorted.
module _ (P : Port → Type 0) where
  insert-All : (a : Port) (cs : List Port) → P a → All P cs → All P (insert a cs)
  unfolding insert
  insert-All a [] h t = (h, tt)
  insert-All a (c ∷ cs) h t = pick (comes_before c a) (insert-All a cs h t.1)
    where
      pick : (b : Bool) → All P (insert a cs) → All P (if b then c ∷ insert a cs else a ∷ c ∷ cs)
      pick true more = (t.0, more)
      pick false more = (h, t)

  pub sorted-All : (ps : List Port) → All P ps → All P (sorted ps)
  unfolding sorted
  sorted-All [] h = tt
  sorted-All (a ∷ ps) h = insert-All a (sorted ps) h.0 (sorted-All ps h.1)

  All-front : (xs ys : List Port) → All P (xs ++ ys) → All P xs
  All-front [] ys h = tt
  All-front (x ∷ xs) ys h = (h.0, All-front xs ys h.1)

-- a port's place in a list
found_at :
    (b : Port) (ps : List Port)
    → IsIn b ps
    → (before : List Port) × (after : List Port) × (ps ≡ before ++ b ∷ after)
found_at b [] h = absurd h
found_at b (p ∷ ps) (inl e) = ([], ps, ap (λ q. q ∷ ps) e)
found_at b (p ∷ ps) (inr m) =
    let (before, after, e) = found_at b ps m in (p ∷ before, after, ap (λ qs. p ∷ qs) e)

-- The lines in front of all rules: the chains' policies, then loopback and established connections.
abbrev pub first_lines : Text → List Text
first_lines default_incoming =
    codes "*filter"
    ∷ (codes ":INPUT "
        ++ (if equal_fold default_incoming (codes "accept") then codes "ACCEPT" else codes "DROP")
        ++ codes " [0:0]")
    ∷ codes ":FORWARD ACCEPT [0:0]"
    ∷ codes ":OUTPUT ACCEPT [0:0]"
    ∷ codes "-A INPUT -i lo -j ACCEPT"
    ∷ codes "-A INPUT -m state --state ESTABLISHED,RELATED -j ACCEPT"
    ∷ []

pub header-first_lines : (d : Text) → header d ≡ first_lines d
unfolding header
header-first_lines d = refl

-- A line accepts what comes to the port, whatever its comment says.
abbrev pub AcceptsPort : Port → Text → Type 0
AcceptsPort p l =
    (comment : Text) × (l
      ≡ codes "-A INPUT -p "
        ++ (p.proto
            ++ (codes " --dport "
                ++ (itoa p.number ++ (codes " -j ACCEPT -m comment --comment " ++ comment)))))

baseline_line-AcceptsPort : (p : Port) → AcceptsPort p (baseline_line p)
unfolding baseline_line
baseline_line-AcceptsPort p =
    (codes "\"protean-fw-baseline: " ++ (escape_comment p.label ++ codes "\""), refl)

-- A line that no rule of the admin has a part in: one of the first lines, or one that accepts what
-- comes to a port of the baseline.
abbrev pub IsSafe : Text → List Port → Text → Type 0
IsSafe default_incoming baseline l =
    (member l (first_lines default_incoming) ≡ true) ⊎ Any (λ c. AcceptsPort c l) baseline

All-member : (ls ms : List Text) → All (λ l. member l (ms ++ ls) ≡ true) ls
All-member [] ms = tt
All-member (l ∷ ls) ms = (
  rw (member-append l ms (l ∷ ls)) (unfold member in ground (arith, same_refl l)),
  subst (λ ks. All (λ k. member k ks ≡ true) ls) (append_assoc ms (l ∷ []) ls)
      (All-member ls (ms ++ l ∷ [])),
)

All-map-IsSafe :
    (d : Text) (ps xs : List Port)
    → All (λ c. Any (λ q. AcceptsPort q (baseline_line c)) ps) xs
    → All (IsSafe d ps) (map baseline_line xs)
All-map-IsSafe d ps [] h = tt
All-map-IsSafe d ps (x ∷ xs) h = (inr h.0, All-map-IsSafe d ps xs h.1)

All-IsSafe-header :
    (d : Text) (ps : List Port) (ls : List Text)
    → All (λ l. member l (first_lines d) ≡ true) ls
    → All (IsSafe d ps) ls
All-IsSafe-header d ps [] h = tt
All-IsSafe-header d ps (l ∷ ls) h = (inl h.0, All-IsSafe-header d ps ls h.1)

own_lines :
    (ps more : List Port) → All (λ c. Any (λ q. AcceptsPort q (baseline_line c)) (more ++ ps)) ps
own_lines [] more = tt
own_lines (p ∷ ps) more = (
  Any-append_right (λ q. AcceptsPort q (baseline_line p)) more (p ∷ ps)
      (inl (baseline_line-AcceptsPort p)),
  subst (λ qs. All (λ c. Any (λ q. AcceptsPort q (baseline_line c)) qs) ps)
      (append_assoc more (p ∷ []) ps) (own_lines ps (more ++ p ∷ [])),
)

map-append :
    (xs ys : List Port)
    → map baseline_line (xs ++ ys) ≡ map baseline_line xs ++ map baseline_line ys
map-append [] ys = refl
map-append (x ∷ xs) ys = ap (λ ls. baseline_line x ∷ ls) (map-append xs ys)

-- For every port of the baseline, the rule set has a line that accepts what comes to the port; in
-- front of it there are only the policies of the chains, the lines for loopback and established
-- connections, and lines that accept what comes to ports of the baseline: no rule of the admin comes
-- before it.
pub render_firewall-IsSafe :
    (d : Text) (ps : List Port) (rules : List FirewallRule) (b : Port)
    → IsIn b ps
    → (before : List Text) × (line : Text) × (after : List Text) × (render_firewall d ps rules
        ≡ written (before ++ line ∷ after))
      × AcceptsPort b line
      × All (IsSafe d ps) before
render_firewall-IsSafe d ps rules b m =
    let (xs, ys, e) = found_at b (sorted ps) (sorted-IsIn b ps m) in
    let P : Port → Type 0 = λ c. Any (λ q. AcceptsPort q (baseline_line c)) ps in
    let tail : List Text = map render_rule rules ++ codes "COMMIT" ∷ [] in
    (
      header d ++ map baseline_line xs,
      baseline_line b,
      map baseline_line ys ++ tail,
      unfold render_firewall rendered_lines in
          ap written (
            ap (λ qs. header d ++ (map baseline_line qs ++ tail)) e
            ∙ ap (λ ls. header d ++ (ls ++ tail)) (map-append xs (b ∷ ys))
            ∙ ap (λ ls. header d ++ ls)
                (append_assoc (map baseline_line xs) (map baseline_line (b ∷ ys)) tail)
            ∙ sym (
                append_assoc (header d) (map baseline_line xs)
                  (map baseline_line (b ∷ ys) ++ tail))),
      baseline_line-AcceptsPort b,
      All-append (IsSafe d ps) (header d) (map baseline_line xs)
          (subst (All (IsSafe d ps)) (sym (header-first_lines d))
            (All-IsSafe-header d ps (first_lines d) (All-member (first_lines d) [])))
          (All-map-IsSafe d ps xs
            (All-front P xs (b ∷ ys) (subst (All P) e (sorted-All P ps (own_lines ps []))))),
    )
