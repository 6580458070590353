-- ===== src/Ipam/Step.antt =====
-- One step of the scan inside a network: the address grows by one, in whichever form it is held.
use native.Mathlib.Decide.{dec_lt}
use native.Mathlib.Nat.{mod-eq_of_lt, mod_self, zero-div, div-lt_iff_lt-mul, one-le-pow}
use protean.Prelude.{
  ℕ, ◌+◌, ◌-◌, ◌*◌, ◌/◌, ◌%◌, ◌^◌, ◌<◌, ◌≡◌, sym, ap, ◌∙◌, length, arith, true, ==_iff, both,
}
use protean.Net.{Ip, IsBytes, IpNet, value, short, block, contains}
use protean.Net.Bytes.{value-lt}
use protean.Net.Forms.{IsIp, Form, four, sixteen, mapped, form}
use protean.Ipam.{inc_ip}
use protean.Ipam.Increment.{inc_ip_lem, length-inc_ip, inc_ip-IsBytes}

pub inc_ip-IsIp : (ip : Ip) → IsIp ip → IsIp (inc_ip ip)
inc_ip-IsIp ip h = record { bytes = inc_ip-IsBytes ip h.bytes; size = rw (length-inc_ip ip) h.size }

-- What `Contains` says.
pub contains-lem :
    (n : IpNet) (ip : Ip)
    → contains n ip ≡ true
    → (length (short ip) ≡ length (short n.ip))
      × (value (short ip) / block n ≡ value (short n.ip) / block n)
unfolding contains
contains-lem n ip h = let (l, q) = both h in ((==_iff _ _).0 l, (==_iff _ _).0 q)

pub block_pos : (n : IpNet) → 0 < block n
unfolding block
block_pos n = one-le-pow (n.bits - n.ones) 2 (omega arith)

-- Where the quotient by the block stays, adding one modulo `p` does not wrap around.
no_wrap : (v w p b : ℕ) → 0 < b → b < p → v < p → w ≡ (v + 1) % p → w / b ≡ v / b → w ≡ v + 1
no_wrap v w p b hb hp hv e q = elim (dec_lt (v + 1) p) [
  | yes lt ↦ e ∙ mod-eq_of_lt lt
  | no ge ↦
      let last : v + 1 ≡ p = omega arith in
      let w0 : w ≡ 0 = e ∙ rw last (mod_self p) in
      let q0 : v / b ≡ 0 = sym q ∙ rw w0 (zero-div b) in
      let small : v < 1 * b = (div-lt_iff_lt-mul {x = v} {y = 1} hb).0 (omega arith) in
      absurd (omega arith)
]

module _ (n : IpNet) (ip : Ip) (h : IsIp ip) (hb : block n < 256 ^ length (short n.ip)) where
  -- in a form that is its own short form
  step_plain :
      short ip ≡ ip
      → short (inc_ip ip) ≡ inc_ip ip
      → length (short ip) ≡ length (short n.ip)
      → value (short (inc_ip ip)) / block n ≡ value (short ip) / block n
      → value (short (inc_ip ip)) ≡ value (short ip) + 1
  step_plain s s' l q =
      let l' : length ip ≡ length (short n.ip) = rw s at l in
      let size : 256 ^ length ip ≡ 256 ^ length (short n.ip) = ap (λ k. 256 ^ k) l' in
      rw (s, s')
        (no_wrap (value ip) (value (inc_ip ip)) (256 ^ length ip) (block n) (block_pos n)
          (rw size hb) (value-lt ip h.bytes) (inc_ip_lem ip h.bytes).0 (rw (s, s') at q))

  -- in the 16-byte form of an IPv4 address
  step_mapped :
      length ip ≡ 16
      → length (short ip) ≡ 4
      → IsBytes (short ip)
      → value ip ≡ 0xffff * 256 ^ 4 + value (short ip)
      → value (inc_ip ip) ≡ 0xffff * 256 ^ 4 + value (short (inc_ip ip))
      → value (short (inc_ip ip)) ≡ value (short ip) + 1
  step_mapped l16 l4 hs e e' =
      let bound : value (short ip) < 256 ^ 4 = rw l4 at (value-lt (short ip) hs) in
      let one : value (inc_ip ip) ≡ (value ip + 1) % 256 ^ 16 =
        rw l16 at ((inc_ip_lem ip h.bytes).0) in
      omega (arith, bound, one, e, e')

  -- Two addresses in a row inside a network that is not the whole address space.
  pub value-short-inc_ip :
      contains n ip ≡ true
      → contains n (inc_ip ip) ≡ true
      → value (short (inc_ip ip)) ≡ value (short ip) + 1
  value-short-inc_ip c c' =
      let (l, q) = contains-lem n ip c in
      let (l', q') = contains-lem n (inc_ip ip) c' in
      go (form ip h) (form (inc_ip ip) (inc_ip-IsIp ip h)) l (l' ∙ sym l) (q' ∙ sym q)
    where
      go :
          Form ip
          → Form (inc_ip ip)
          → length (short ip) ≡ length (short n.ip)
          → length (short (inc_ip ip)) ≡ length (short ip)
          → value (short (inc_ip ip)) / block n ≡ value (short ip) / block n
          → value (short (inc_ip ip)) ≡ value (short ip) + 1
      go (four a s) (four b s') l k q = step_plain s s' l q
      go (four a s) (sixteen b s') l k q = step_plain s s' l q
      go (four a s) (mapped b b4 hs e) l k q = absurd (omega (arith, length-inc_ip ip))
      go (sixteen a s) (four b s') l k q = step_plain s s' l q
      go (sixteen a s) (sixteen b s') l k q = step_plain s s' l q
      go (sixteen a s) (mapped b b4 hs e) l k q = absurd (omega (arith, ap length s))
      go (mapped a a4 hs e) (four b s') l k q = absurd (omega (arith, length-inc_ip ip))
      go (mapped a a4 hs e) (sixteen b s') l k q = absurd (omega (arith, ap length s'))
      go (mapped a a4 hs e) (mapped b b4 hs' e') l k q = step_mapped a a4 hs e e'
