-- ===== src/Net/Bytes.antt =====
-- Bytes and the numbers that they spell.
use native.Mathlib.Nat.{pow-suc, mul-add-div_right, div-eq_of_lt}
use protean.Prelude.{
  ℕ, zero, suc, ◌+◌, ◌*◌, ◌/◌, ◌^◌, ◌<◌, ◌≡◌, refl, ap₂, sym, ◌∙◌, [], ◌∷◌, length, arith,
}
use protean.Net.{Ip, IsBytes, value}

pub pow_pos : (k : ℕ) → 0 < 256 ^ k
pow_pos zero = omega arith
pow_pos (suc k) = omega (arith, pow_pos k, pow-suc 256 k)

-- Bytes spell a number below 256 to the power of their count.
pub value-lt : (ip : Ip) → IsBytes ip → value ip < 256 ^ length ip
unfolding value
value-lt [] h = omega arith
value-lt (b ∷ ip) h = grind (arith, value-lt ip h.1, pow-suc 256 (length ip))

pub value_cons : (b : ℕ) (ip : Ip) → value (b ∷ ip) ≡ b * 256 ^ length ip + value ip
unfolding value
value_cons b ip = refl

-- The first byte is the quotient by the weight of its place.
value_head : (b : ℕ) (ip : Ip) → IsBytes ip → value (b ∷ ip) / 256 ^ length ip ≡ b
unfolding value
value_head b ip h =
    rw (mul-add-div_right (pow_pos (length ip)) b (value ip))
      (rw (div-eq_of_lt (value-lt ip h)) (omega arith))

-- Two lists of bytes of one length that spell the same number are equal.
pub value-injective :
    (a b : Ip) → IsBytes a → IsBytes b → length a ≡ length b → value a ≡ value b → a ≡ b
value-injective [] [] ha hb l e = refl
value-injective [] (y ∷ b) ha hb l e = absurd (omega arith)
value-injective (x ∷ a) [] ha hb l e = absurd (omega arith)
value-injective (x ∷ a) (y ∷ b) ha hb l e =
    let lengths : length a ≡ length b = omega arith in
    let heads : x ≡ y =
      sym (value_head x a ha.1) ∙ ap₂ (λ v k. v / 256 ^ k) e lengths ∙ value_head y b hb.1 in
    let tails : value a ≡ value b =
      omega (arith, value_cons x a, value_cons y b, e, ap₂ (λ z k. z * 256 ^ k) heads lengths) in
    ap₂ (λ z zs. z ∷ zs) heads (value-injective a b ha.1 hb.1 lengths tails)
