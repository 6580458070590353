-- ===== src/Status.antt =====
-- internal/vpn/openvpn/status.go: the clients that OpenVPN's status file lists. A time is a Unix
-- time, 0 where there is none.
use protean.Prelude.{
  ℕ, List, [], ◌∷◌, ◌++◌, map, not, ◌≡◌, refl, Option, none, some, if◌then◌else◌, ◌+◌, ◌-◌, ◌*◌,
  ltb,
}
use protean.Strings.{Text, codes, split, has_prefix, contains, trim_space, is_empty}
use protean.Strings.Decimal.{is_digit, parse_int}
use protean.Wg.{trim_right_cr}

-- ConnectedClient
pub record ConnectedClient : Type 0 where
  pub common_name : Text
  pub real_address : Text
  pub virtual_address : Text
  pub bytes_received : ℕ
  pub bytes_sent : ℕ
  pub connected_since : ℕ

abbrev greatest_uint : ℕ
greatest_uint = 18_446_744_073_709_551_615

-- the number that `strconv.ParseUint` gives, whatever its error
unfoldable pub uint_digits : Text → ℕ → ℕ
uint_digits [] n = n
uint_digits (c ∷ s) n =
    let m = n * 10 + (c - b'0') in
    let rest = uint_digits s m in
    if not (is_digit c) then 0 else if ltb greatest_uint m then greatest_uint else rest

unfoldable pub counter : Text → ℕ
unfolding uint_digits
counter f = uint_digits (trim_space f) 0

unfoldable pub number_or_none : Option ℕ → ℕ
number_or_none none = 0
number_or_none (some ts) = ts

-- the time in the ninth field, where there is one
unfoldable pub connected_at : List Text → ℕ
unfolding number_or_none
connected_at [] = 0
connected_at (f ∷ more) = number_or_none (parse_int (trim_space f))

-- a client from the fields of its line, if they are eight or more
unfoldable pub client_of : List Text → Option ConnectedClient
unfolding counter connected_at
client_of (tag ∷ name ∷ real ∷ virtual ∷ virtual6 ∷ received ∷ sent ∷ since ∷ more) = some (record {
  common_name = name;
  real_address = real;
  virtual_address = virtual;
  bytes_received = counter received;
  bytes_sent = counter sent;
  connected_since = connected_at more;
})
client_of _ = none

unfoldable pub separator : Text → ℕ
separator line = if contains line (codes "\t") then b'\t' else b','

-- one round of the loop
unfoldable pub status_line : Text → Option ConnectedClient
unfolding client_of separator
status_line raw =
    let line = trim_right_cr raw in
    if not (has_prefix line (codes "CLIENT_LIST"))
    then none
    else client_of (split line (separator line))

unfoldable pub prepend : Option ConnectedClient → List ConnectedClient → List ConnectedClient
prepend none cs = cs
prepend (some c) cs = c ∷ cs

unfoldable pub status_lines : List Text → List ConnectedClient
unfolding status_line prepend
status_lines [] = []
status_lines (line ∷ lines) = prepend (status_line line) (status_lines lines)

-- ParseStatus
unfoldable pub parse_status : Text → List ConnectedClient
unfolding status_lines
parse_status content = status_lines (split content b'\n')

trim_right_cr-append : (line : Text) → trim_right_cr (line ++ b'\r' ∷ []) ≡ trim_right_cr line
unfolding trim_right_cr
trim_right_cr-append [] = unfold is_empty in refl
trim_right_cr-append (c ∷ line) = rw (trim_right_cr-append line) refl

-- The clients of a status file whose lines end in a carriage return are those of the same lines
-- without it.
status_lines-carriage_returns :
    (lines : List Text) → status_lines (map (λ l. l ++ b'\r' ∷ []) lines) ≡ status_lines lines
unfolding status_lines status_line
status_lines-carriage_returns [] = refl
status_lines-carriage_returns (line ∷ lines) =
    rw (trim_right_cr-append line, status_lines-carriage_returns lines) refl
