-- ===== src/Strings/Decimal.antt =====
-- Decimal numbers: `strconv.Itoa` and `FormatInt` of a number that is not negative, and
-- `strconv.Atoi`, `ParseInt(s, 10, 64)` and `ParseUint(s, 10, 64)`, where a number below 0 counts as
-- 0.
use protean.Prelude.{
  ℕ, zero, suc, ◌+◌, ◌-◌, ◌*◌, ◌/◌, ◌%◌, ◌<◌, [], ◌∷◌, Bool, true, false, ◌&&◌, ◌≡◌, refl, Option,
  none, some, ◌>>=◌, ◌>>◌, guard, arith, ltb, leb, ◌==◌, All, if◌then◌else◌, Bool-cases, inl, inr,
}
use protean.Strings.{Text}

-- the digits of `n` in front of `out`; the fuel is above the number of digits
unfoldable pub digits : ℕ → ℕ → Text → Text
digits zero n out = out
digits (suc fuel) n out =
    let rest = digits fuel (n / 10) ((b'0' + n % 10) ∷ out) in if n == 0 then out else rest

unfoldable pub itoa : ℕ → Text
unfolding digits
itoa n = if n == 0 then b'0' ∷ [] else digits (suc n) n []

unfoldable pub is_digit : ℕ → Bool
is_digit c = leb b'0' c && leb c b'9'

-- the number that digits spell behind `n`; `none` at a character that is no digit
unfoldable pub scan : Text → ℕ → Option ℕ
unfolding is_digit
scan [] n = some n
scan (c ∷ s) n = if is_digit c then scan s (n * 10 + (c - b'0')) else none

-- an unsigned decimal below `limit`
unfoldable pub parse_uint : ℕ → Text → Option ℕ
unfolding scan
parse_uint limit [] = none
parse_uint limit (c ∷ s) = do n ← scan (c ∷ s) 0; guard (ltb n limit); some n

-- `strconv.ParseInt(s, 10, 64)` and `strconv.Atoi`, where a number below 0 counts as 0
unfoldable pub parse_int : Text → Option ℕ
unfolding parse_uint
parse_int [] = none
parse_int (c ∷ s) =
    if c == b'-'
    then (do n ← parse_uint 9_223_372_036_854_775_809 s; some 0)
    else if c == b'+'
    then parse_uint 9_223_372_036_854_775_808 s
    else parse_uint 9_223_372_036_854_775_808 (c ∷ s)

scan-digits : (fuel n : ℕ) (out : Text) → n < fuel → scan (digits fuel n out) 0 ≡ scan out n
unfolding digits scan
scan-digits zero n out h = absurd (omega arith)
scan-digits (suc fuel) n out h = ground (arith, scan-digits fuel (n / 10) ((b'0' + n % 10) ∷ out))

digits_cons : (fuel n d : ℕ) (out : Text) → (c : ℕ) × (s : Text) × (digits fuel n (d ∷ out) ≡ c ∷ s)
unfolding digits
digits_cons zero n d out = (d, out, refl)
digits_cons (suc fuel) n d out = elim (Bool-cases (n == 0)) [
  | inl e ↦ (d, out, rw e)
  | inr e ↦ let (c, s, p) = digits_cons fuel (n / 10) (b'0' + n % 10) (d ∷ out) in (c, s, rw e p)
]

parse_uint-scan :
    (limit c : ℕ) (s : Text) (n : ℕ)
    → scan (c ∷ s) 0 ≡ some n
    → n < limit
    → parse_uint limit (c ∷ s) ≡ some n
unfolding parse_uint
parse_uint-scan limit c s n h lt = rw h (ground arith)

read_back : (n : ℕ) → scan (digits (suc n) (suc n / 10) ((b'0' + suc n % 10) ∷ [])) 0 ≡ some (suc n)
unfolding scan
read_back n = ground (arith, scan-digits (suc n) (suc n / 10) ((b'0' + suc n % 10) ∷ []))

-- A decimal print is read back.
pub parse_uint-itoa : (limit n : ℕ) → n < limit → parse_uint limit (itoa n) ≡ some n
parse_uint-itoa limit zero h =
    unfold itoa in parse_uint-scan limit b'0' [] 0 (unfold scan in refl) h
parse_uint-itoa limit (suc n) h =
    let (c, s, p) = digits_cons (suc n) (suc n / 10) (b'0' + suc n % 10) [] in
    let print : itoa (suc n) ≡ c ∷ s = unfold itoa digits in ground (arith, p) in
    rw print (parse_uint-scan limit c s (suc n) (rw p at (read_back n)) h)

pub digits-All :
    (P : ℕ → Type 0)
    → ((d : ℕ) → d < 10 → P (b'0' + d))
    → (fuel n : ℕ) (out : Text) → All P out
    → All P (digits fuel n out)
unfolding digits
digits-All P h zero n out ho = ho
digits-All P h (suc fuel) n out ho = elim (Bool-cases (n == 0)) [
  | inl e ↦ rw e ho
  | inr e ↦ rw e (digits-All P h fuel (n / 10) _ (h (n % 10) (omega arith), ho))
]

-- Every character of a decimal print is a digit.
pub itoa-All : (P : ℕ → Type 0) → ((d : ℕ) → d < 10 → P (b'0' + d)) → (n : ℕ) → All P (itoa n)
itoa-All P h n = unfold itoa in pick (n == 0)
  where
    pick : (b : Bool) → All P (if b then b'0' ∷ [] else digits (suc n) n [])
    pick true = (h 0 (omega arith), tt)
    pick false = digits-All P h (suc n) n [] tt

pub parse_int-itoa : (n : ℕ) → n < 9_223_372_036_854_775_808 → parse_int (itoa n) ≡ some n
parse_int-itoa n h =
    unsigned (itoa n)
      (itoa-All (λ c. ((c == b'-') ≡ false) × ((c == b'+') ≡ false))
        (λ d k. (ground arith, ground arith)) n)
      (parse_uint-itoa 9_223_372_036_854_775_808 n h)
  where
    unsigned :
        (t : Text)
        → All (λ c. ((c == b'-') ≡ false) × ((c == b'+') ≡ false)) t
        → parse_uint 9_223_372_036_854_775_808 t ≡ some n
        → parse_int t ≡ some n
    unsigned [] a e = unfold parse_uint in cc
    unsigned (c ∷ s) a e = unfold parse_int in rw (a.0.0, a.0.1) e
