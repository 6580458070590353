-- ===== src/Ipam/Increment.antt =====
-- `incIP` adds one, modulo the number of addresses of that length.
use native.Mathlib.Decide.{dec_lt}
use native.Mathlib.Nat.{pow-suc, mul_comm, mod-eq_of_lt, add-mod_right, add-zero}
use protean.Prelude.{
  ℕ, suc, ◌+◌, ◌*◌, ◌%◌, ◌^◌, ◌<◌, ◌≡◌, refl, sym, ap, ◌∙◌, [], ◌∷◌, length, arith, Bool, true,
  false, if◌then◌else◌,
}
use protean.Net.{Ip, IsBytes, value}
use protean.Net.Bytes.{value-lt, value_cons}
use protean.Ipam.{carry_byte, carry, inc_ip}

length-carry_byte : (b : ℕ) (r : Ip × Bool) → length (carry_byte b r).0 ≡ suc (length r.0)
unfolding carry_byte
length-carry_byte b (rest, false) = refl
length-carry_byte b (rest, true) = refl

length-carry : (ip : Ip) → length (carry ip).0 ≡ length ip
unfolding carry
length-carry [] = refl
length-carry (b ∷ ip) = length-carry_byte b (carry ip) ∙ ap suc (length-carry ip)

carry_byte-IsBytes : (b : ℕ) (r : Ip × Bool) → b < 256 → IsBytes r.0 → IsBytes (carry_byte b r).0
unfolding carry_byte
carry_byte-IsBytes b (rest, false) h hr = (h, hr)
carry_byte-IsBytes b (rest, true) h hr = (omega arith, hr)

carry-IsBytes : (ip : Ip) → IsBytes ip → IsBytes (carry ip).0
unfolding carry
carry-IsBytes [] h = tt
carry-IsBytes (b ∷ ip) h = carry_byte-IsBytes b (carry ip) h.0 (carry-IsBytes ip h.1)

carry_byte_sum :
    (b : ℕ) (r : Ip × Bool) (v p : ℕ)
    → b < 256
    → p ≡ 256 ^ length r.0
    → value r.0 + (if r.1 then p else 0) ≡ v + 1
    → value (carry_byte b r).0 + (if (carry_byte b r).1 then 256 * p else 0) ≡ b * p + v + 1
unfolding carry_byte
carry_byte_sum b (rest, false) v p hb hp h = omega (arith, value_cons b rest, ap (λ z. b * z) hp)
carry_byte_sum b (rest, true) v p hb hp h = elim (dec_lt (b + 1) 256) [
  | yes lt ↦
      let e : (b + 1) % 256 ≡ b + 1 = omega arith in
      rw e (ground (arith, value_cons (b + 1) rest, ap (λ z. (b + 1) * z) hp))
  | no ge ↦ let e : b ≡ 255 = omega arith in rw e (omega (arith, value_cons 0 rest))
]

-- Where the loop runs past the first byte every byte was 255, and else the number grew by one.
carry_lem :
    (ip : Ip)
    → IsBytes ip
    → value (carry ip).0 + (if (carry ip).1 then 256 ^ length ip else 0) ≡ value ip + 1
unfolding carry
carry_lem [] h = unfold value in omega arith
carry_lem (b ∷ ip) h =
    let p = 256 ^ length ip in
    let sum =
      carry_byte_sum b (carry ip) (value ip) p h.0 (ap (λ k. 256 ^ k) (sym (length-carry ip)))
        (carry_lem ip h.1) in
    rw (pow-suc 256 (length ip), mul_comm (256 ^ length ip) 256, value_cons b ip) sum

pub length-inc_ip : (ip : Ip) → length (inc_ip ip) ≡ length ip
unfolding inc_ip
length-inc_ip = length-carry

pub inc_ip-IsBytes : (ip : Ip) → IsBytes ip → IsBytes (inc_ip ip)
unfolding inc_ip
inc_ip-IsBytes = carry-IsBytes

add_mod :
    (v w p : ℕ) (running : Bool) → w < p → w + (if running then p else 0) ≡ v + 1 → w ≡ (v + 1) % p
add_mod v w p true h e = rw (← e) (sym (add-mod_right w p ∙ mod-eq_of_lt h))
add_mod v w p false h e = rw (← e) (sym (rw add-zero (mod-eq_of_lt h)))

-- `incIP` adds one to the number that the bytes spell, and wraps around at the number of
-- addresses of that length; the length stays and every byte stays a byte.
pub inc_ip_lem :
    (ip : Ip)
    → IsBytes ip
    → (value (inc_ip ip) ≡ (value ip + 1) % 256 ^ length ip)
      × (length (inc_ip ip) ≡ length ip)
      × IsBytes (inc_ip ip)
inc_ip_lem ip h = (
  add_mod (value ip) (value (inc_ip ip)) (256 ^ length ip) (carry ip).1
      (rw (length-inc_ip ip) at (value-lt (inc_ip ip) (inc_ip-IsBytes ip h)))
      (unfold inc_ip in carry_lem ip h),
  length-inc_ip ip,
  inc_ip-IsBytes ip h,
)
