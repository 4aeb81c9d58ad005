-- ===== src/Host/Grammar.antt =====
-- The hosts that `validate_host` accepts, written as a grammar and not as a machine, and what it
-- makes of them.
use ngx_http_headers_control.Common.{
  ℕ, ◌+◌, ◌*◌, ◌-◌, Bool, true, false, not, ◌&&◌, ◌||◌, [], ◌∷◌, ◌++◌, map, ◌==◌, leb,
  if◌then◌else◌,
}
use ngx_http_headers_control.Ngx.{Bytes, to_lower}
use ngx_http_headers_control.Host.{
  HostResult, valid, declined, is_upper, is_lower, is_digit, is_mark,
}

abbrev pub is_alnum : ℕ → Bool
is_alnum c = is_upper c || is_lower c || is_digit c

-- The bytes of a registered name and those between the brackets of an IP literal.
abbrev pub name_byte : ℕ → Bool
name_byte c = is_alnum c || c == b'.' || is_mark c || c == b'%'

abbrev pub literal_byte : ℕ → Bool
literal_byte c = is_alnum c || c == b'.' || is_mark c || c == b':'

-- Every byte is allowed and no dot follows a dot; the flag says that a dot stands in front.
abbrev pub well_formed : (ℕ → Bool) → Bool → Bytes → Bool
well_formed allowed dotted [] = true
well_formed allowed dotted (c ∷ cs) =
    allowed c && not (dotted && c == b'.') && well_formed allowed (c == b'.') cs

-- The part in front of the first `stop`, and the part from there on.
abbrev pub before_byte : ℕ → Bytes → Bytes
before_byte stop [] = []
before_byte stop (c ∷ cs) = if c == stop then [] else c ∷ before_byte stop cs

abbrev pub from_byte : ℕ → Bytes → Bytes
from_byte stop [] = []
from_byte stop (c ∷ cs) = if c == stop then c ∷ cs else from_byte stop cs

abbrev pub all_digits : Bytes → Bool
all_digits [] = true
all_digits (c ∷ cs) = is_digit c && all_digits cs

-- The number that digits stand for, after the number `n`.
abbrev pub decimal : ℕ → Bytes → ℕ
decimal n [] = n
decimal n (c ∷ cs) = decimal (n * 10 + (c - b'0')) cs

abbrev pub port_digits : Bytes → Bool
port_digits ds = all_digits ds && leb (decimal 0 ds) 65535

-- Nothing, or a colon and a port of at most 65535, which may be empty.
abbrev pub port_part : Bytes → Bool
port_part [] = true
port_part (c ∷ ds) = c == b':' && port_digits ds

-- The name without one dot at its end.
abbrev pub strip_dot : Bytes → Bytes
strip_dot [] = []
strip_dot (c ∷ []) = if c == b'.' then [] else c ∷ []
strip_dot (c ∷ d ∷ cs) = c ∷ strip_dot (d ∷ cs)

abbrev pub nonempty : Bytes → Bool
nonempty [] = false
nonempty (c ∷ cs) = true

-- A registered name, and a port.
abbrev pub named_host : Bytes → HostResult
named_host h =
    let name = before_byte b':' h in
    if well_formed name_byte false name && port_part (from_byte b':' h) && nonempty (strip_dot name)
    then valid (map to_lower (strip_dot name))
    else declined

abbrev pub close_and_port : Bytes → Bool
close_and_port [] = false
close_and_port (c ∷ rest) = port_part rest

-- An IP literal behind its opening bracket, and a port.
abbrev pub literal_host : Bytes → HostResult
literal_host h =
    let address = before_byte b']' h in
    if well_formed literal_byte false address && close_and_port (from_byte b']' h)
    then valid (b'[' ∷ (map to_lower address ++ b']' ∷ []))
    else declined

abbrev pub host_grammar : Bytes → HostResult
host_grammar [] = declined
host_grammar (c ∷ h) = if c == b'[' then literal_host h else named_host (c ∷ h)
