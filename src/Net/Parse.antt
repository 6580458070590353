-- ===== src/Net/Parse.antt =====
-- `net.ParseIP` and `net.ParseCIDR`. A text that they refuse, for whatever reason, gives `none`.
use protean.Prelude.{
  ℕ, zero, suc, ◌+◌, ◌-◌, ◌*◌, ◌/◌, ◌%◌, ◌^◌, List, [], ◌∷◌, ◌++◌, ◌&&◌, Option, none, some, ◌>>=◌,
  ◌>>◌, guard, ltb, leb, ◌==◌, if◌then◌else◌, length, take, drop, replicate, ◌≡◌, refl,
}
use protean.Strings.{Text, codes, split, cut}
use protean.Strings.Decimal.{parse_uint}
use protean.Net.{Ip, IpNet, value, v4_in_v6_prefix}

-- one field of a dotted address: a decimal below 256 with no leading zero
unfoldable pub v4_field : Text → Option ℕ
unfolding parse_uint
v4_field [] = none
v4_field (c ∷ []) = parse_uint 256 (c ∷ [])
v4_field (c ∷ d ∷ s) = if c == b'0' then none else parse_uint 256 (c ∷ d ∷ s)

unfoldable pub v4_fields : List Text → Option Ip
unfolding v4_field
v4_fields (a ∷ b ∷ c ∷ d ∷ []) = do
  w ← v4_field a
  x ← v4_field b
  y ← v4_field c
  z ← v4_field d
  some (w ∷ x ∷ y ∷ z ∷ [])
v4_fields _ = none

unfoldable pub parse_v4 : Text → Option Ip
unfolding v4_fields split
parse_v4 s = v4_fields (split s b'.')

unfoldable pub hex_digit : ℕ → Option ℕ
hex_digit c =
    if leb b'0' c && leb c b'9'
    then some (c - b'0')
    else if leb b'a' c && leb c b'f'
    then some (c - b'a' + 10)
    else if leb b'A' c && leb c b'F'
    then some (c - b'A' + 10)
    else none

-- at most four hexadecimal digits: their number, how many there are, and the rest; `none` at a
-- fifth digit
unfoldable pub hex_group : Text → ℕ → ℕ → Option (ℕ × ℕ × Text)
unfolding hex_digit
hex_group [] acc off = some (acc, off, [])
hex_group (c ∷ s) acc off =
    let longer = λ (d : ℕ). hex_group s (acc * 16 + d) (off + 1) in
    elim (hex_digit c) [
      | none ↦ some (acc, off, c ∷ s)
      | some d ↦ if ltb 3 off then none else longer d
    ]

-- The 16 bytes, where the groups before and behind the `::` are known.
unfoldable pub expand : Ip → Option ℕ → Option Ip
expand out none = if length out == 16 then some out else none
expand out (some at) =
    if length out == 16
    then none
    else some (take at out ++ (replicate (16 - length out) 0 ++ drop at out))

-- an embedded IPv4 address ends the text
abbrev pub v4_tail : Text → Ip → Option ℕ → Option Ip
v4_tail s out ellipsis = do
  guard (elim ellipsis [ none ↦ length out == 12 | some _ ↦ leb (length out + 4) 16 ])
  v4 ← parse_v4 s
  expand (out ++ v4) ellipsis

-- the loop over the groups: `left` groups fit, `out` holds the bytes so far
unfoldable pub v6_groups : ℕ → Text → Ip → Option ℕ → Option Ip
unfolding hex_group expand parse_v4
v6_groups zero [] out ellipsis = expand out ellipsis
v6_groups zero (c ∷ s) out ellipsis = none
v6_groups (suc left) s out ellipsis = elim (hex_group s 0 0) [
  | none ↦ none
  | some (acc, off, rest) ↦
      let out' = out ++ (acc / 256 ∷ acc % 256 ∷ []) in
      if off == 0 then none else elim rest [
        | [] ↦ expand out' ellipsis
        | c ∷ t ↦
            if c == b'.'
            then v4_tail s out ellipsis
            else if c == b':'
            then elim t [
              | [] ↦ none
              | d ∷ u ↦
                  if d == b':'
                  then elim ellipsis [
                    | some _ ↦ none
                    | none ↦ elim u [
                      | [] ↦ expand out' (some (length out'))
                      | e ∷ v ↦ v6_groups left (e ∷ v) out' (some (length out'))
                    ]
                  ]
                  else v6_groups left (d ∷ u) out' ellipsis
            ]
            else none
      ]
]

unfoldable pub parse_v6 : Text → Option Ip
unfolding v6_groups
parse_v6 (c ∷ d ∷ s) =
    if c == b':' && d == b':'
    then elim s [ [] ↦ some (replicate 16 0) | e ∷ t ↦ v6_groups 8 (e ∷ t) [] (some 0) ]
    else v6_groups 8 (c ∷ d ∷ s) [] none
parse_v6 s = v6_groups 8 s [] none

-- `netip.ParseAddr`, with no zone: the first of `.`, `:` and `%` decides
pub data Family : Type 0 where
  v4 v6 neither : Family

unfoldable pub family : Text → Family
family [] = neither
family (c ∷ s) =
    if c == b'.' then v4 else if c == b':' then v6 else if c == b'%' then neither else family s

-- the address in its 16-byte form, and the number of bits of the form in which it was written
unfoldable pub parse_addr : Text → Option (Ip × ℕ)
unfolding family parse_v4 parse_v6
parse_addr s = elim (family s) [
  | Family.v4 ↦ (do ip ← parse_v4 s; some (v4_in_v6_prefix ++ ip, 32))
  | Family.v6 ↦ (do ip ← parse_v6 s; some (ip, 128))
  | Family.neither ↦ none
]

-- `net.ParseIP`
unfoldable pub parse_ip : Text → Option Ip
unfolding parse_addr
parse_ip s = do (ip, bits) ← parse_addr s; some ip

-- The `count` bytes that spell a number.
unfoldable pub bytes_of : ℕ → ℕ → Ip
bytes_of zero v = []
bytes_of (suc count) v = v / 256 ^ count % 256 ∷ bytes_of count v

-- `ip.Mask(net.CIDRMask(ones, bits))`
unfoldable pub masked : Ip → ℕ → ℕ → Ip
unfolding bytes_of
masked ip ones bits = let v = value ip in bytes_of (length ip) (v - v % 2 ^ (bits - ones))

-- `net.ParseCIDR`: the address, 16 bytes long, and its network
unfoldable pub parse_cidr : Text → Option (Ip × IpNet)
unfolding parse_addr masked
parse_cidr s = do
  (addr, mask) ← cut s b'/'
  (ip, bits) ← parse_addr addr
  ones ← parse_uint 0xffffff mask
  guard (leb ones bits)
  let form = if bits == 32 then drop 12 ip else ip
  some (ip, record { ip = masked form ones bits; ones = ones; bits = bits })

parse_v4_cidr :
    parse_cidr (codes "10.10.0.5/24")
    ≡ some (
      v4_in_v6_prefix ++ (10 ∷ 10 ∷ 0 ∷ 5 ∷ []),
      record { ip = 10 ∷ 10 ∷ 0 ∷ 0 ∷ []; ones = 24; bits = 32 },
    )
unfolding parse_cidr cut value
parse_v4_cidr = refl

parse_v6_cidr :
    parse_cidr (codes "fd00::a:1.2.3.4/64")
    ≡ some (
      0xfd ∷ 0 ∷ 0 ∷ 0 ∷ 0 ∷ 0 ∷ 0 ∷ 0 ∷ 0 ∷ 0 ∷ 0 ∷ 10 ∷ 1 ∷ 2 ∷ 3 ∷ 4 ∷ [],
      record {
        ip = 0xfd ∷ 0 ∷ 0 ∷ 0 ∷ 0 ∷ 0 ∷ 0 ∷ 0 ∷ 0 ∷ 0 ∷ 0 ∷ 0 ∷ 0 ∷ 0 ∷ 0 ∷ 0 ∷ [];
        ones = 64;
        bits = 128;
      },
    )
unfolding parse_cidr cut value
parse_v6_cidr = refl

parse_refused :
    (parse_cidr (codes "10.10.0.0/33") ≡ none)
    × (parse_cidr (codes "10.10.00.0/24") ≡ none)
    × (parse_cidr (codes "1:2:3::4::5/24") ≡ none)
    × (parse_cidr (codes "10.10.0.0") ≡ none)
    × (parse_ip (codes "1.2.3.256") ≡ none)
unfolding parse_cidr cut value parse_ip
parse_refused = (refl, refl, refl, refl, refl)
