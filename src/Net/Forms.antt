-- ===== src/Net/Forms.antt =====
-- The 4-byte and the 16-byte forms of an address.
use protean.Prelude.{
  ℕ, zero, suc, ◌+◌, ◌*◌, ◌^◌, ◌≡◌, ◌⊎◌, inl, inr, sym, ap, ◌∙◌, [], ◌∷◌, ◌++◌, length, take, drop,
  arith, Bool-cases, length-drop, take-append-drop,
}
use protean.Strings.{same}
use protean.Strings.Laws.{same_iff}
use protean.Net.{Ip, IsBytes, value, v4_in_v6_prefix, to4, short}

-- An address of 4 or 16 bytes, as all that the program handles.
pub record IsIp (ip : Ip) : Type 0 where
  pub bytes : IsBytes ip
  pub size : (length ip ≡ 4) ⊎ (length ip ≡ 16)

value_prefix : (d : Ip) → length d ≡ 4 → value (v4_in_v6_prefix ++ d) ≡ 0xffff * 256 ^ 4 + value d
unfolding value
value_prefix [] h = absurd (omega arith)
value_prefix (a ∷ []) h = absurd (omega arith)
value_prefix (a ∷ b ∷ []) h = absurd (omega arith)
value_prefix (a ∷ b ∷ c ∷ []) h = absurd (omega arith)
value_prefix (a ∷ b ∷ c ∷ d ∷ []) h = omega arith
value_prefix (a ∷ b ∷ c ∷ d ∷ e ∷ r) h = absurd (omega arith)

All-drop : (n : ℕ) (ip : Ip) → IsBytes ip → IsBytes (drop n ip)
All-drop zero ip h = h
All-drop (suc n) [] h = tt
All-drop (suc n) (b ∷ ip) h = All-drop n ip h.1

-- An address is one of three: 4 bytes, 16 bytes that are no IPv4 address, or the prefix and 4 bytes.
pub data Form (ip : Ip) : Type 0 where
  four : length ip ≡ 4 → short ip ≡ ip → Form ip
  sixteen : length ip ≡ 16 → short ip ≡ ip → Form ip
  mapped :
      length ip ≡ 16
      → length (short ip) ≡ 4
      → IsBytes (short ip)
      → value ip ≡ 0xffff * 256 ^ 4 + value (short ip)
      → Form ip

mapped-Form :
    (ip : Ip)
    → IsBytes ip
    → length ip ≡ 16
    → take 12 ip ≡ v4_in_v6_prefix
    → short ip ≡ drop 12 ip
    → Form ip
mapped-Form ip hb l e s =
    let size : length (drop 12 ip) ≡ 4 = omega (arith, length-drop 12 ip) in
    let whole : v4_in_v6_prefix ++ drop 12 ip ≡ ip = rw e at (take-append-drop 12 ip) in
    mapped l (rw s size) (rw s (All-drop 12 ip hb))
      (rw s (ap value (sym whole) ∙ value_prefix (drop 12 ip) size))

pub form : (ip : Ip) → IsIp ip → Form ip
form ip h = elim h.size [
  | inl l ↦ four l (unfold short to4 in ground arith)
  | inr l ↦ elim (Bool-cases (same (take 12 ip) v4_in_v6_prefix)) [
    | inl e ↦ mapped-Form ip h.bytes l ((same_iff _ _).0 e) (unfold short to4 in ground arith)
    | inr e ↦ sixteen l (unfold short to4 in ground arith)
  ]
]
