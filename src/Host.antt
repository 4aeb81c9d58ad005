-- ===== src/Host.antt =====
-- `ngx_http_headers_control_validate_host` of ngx_http_headers_control_headers_in.c: the byte
-- machine over the value of a Host header. `size_t` has 64 bits.
pub mod Grammar
mod Name
mod Ends
mod Literal
pub mod Accepts
use ngx_http_headers_control.Common.{
  ℕ, suc, ◌+◌, ◌-◌, ◌*◌, ◌%◌, ◌^◌, Bool, true, false, ◌&&◌, ◌||◌, Option, none, some, List, [], ◌∷◌,
  ◌==◌, leb, ltb, if◌then◌else◌, ◌>>=◌, length, take,
}
use ngx_http_headers_control.Ngx.{Bytes, Ngx}

pub data HostState : Type 0 where
  sw_host_start sw_host sw_host_ip_literal sw_host_end sw_port : HostState

-- The variables of the loop.
pub record Scan : Type 0 where
  pub state : HostState
  pub dot_pos : ℕ
  pub host_len : ℕ
  pub port : ℕ
  pub alloc : Bool

-- `n - 1` on `size_t`.
abbrev pub pred_size : ℕ → ℕ
pred_size n = (n + 2 ^ 64 - 1) % 2 ^ 64

abbrev pub within : ℕ → ℕ → ℕ → Bool
within lo hi c = leb lo c && leb c hi

abbrev pub is_upper : ℕ → Bool
is_upper = within b'A' b'Z'

abbrev pub is_lower : ℕ → Bool
is_lower = within b'a' b'z'

abbrev pub is_digit : ℕ → Bool
is_digit = within b'0' b'9'

-- `-`, and the cases marked `unreserved` and `sub-delims`
abbrev pub is_mark : ℕ → Bool
is_mark c =
    c == b'-'
    || c == b'_'
    || c == b'~'
    || c == b'!'
    || c == b'$'
    || c == b'&'
    || c == 39
    || c == b'('
    || c == b')'
    || c == b'*'
    || c == b'+'
    || c == b','
    || c == b';'
    || c == b'='

-- `case '.'`, the same in both host states
on_dot : ℕ → Scan → Option Scan
on_dot i s = if s.dot_pos == pred_size i then none else some (record s { dot_pos = i })

step_host : ℕ → Scan → ℕ → Option Scan
step_host i s ch =
    if is_upper ch
    then some (record s { alloc = true })
    else if is_lower ch || is_digit ch
    then some s
    else if ch == b':'
    then some (record s { host_len = i; state = sw_port })
    else if ch == b'.'
    then on_dot i s
    else if is_mark ch || ch == b'%'
    then some s
    else none

step_literal : ℕ → Scan → ℕ → Option Scan
step_literal i s ch =
    if is_upper ch
    then some (record s { alloc = true })
    else if is_lower ch || is_digit ch
    then some s
    else if ch == b':'
    then some s
    else if ch == b']'
    then some (record s { host_len = i + 1; state = sw_host_end })
    else if ch == b'.'
    then on_dot i s
    else if is_mark ch
    then some s
    else none

step_port : Scan → ℕ → Option Scan
step_port s ch =
    if is_digit ch
    then if leb 6553 s.port && (ltb 6553 s.port || ltb 5 (ch - b'0'))
      then none
      else some (record s { port = s.port * 10 + (ch - b'0') })
    else none

pub step_in : HostState → ℕ → Scan → ℕ → Option Scan
unfolding step_host step_literal step_port on_dot
step_in sw_host_start i s ch =
    if ch == b'['
    then some (record s { state = sw_host_ip_literal })
    else step_host i (record s { state = sw_host }) ch
step_in sw_host i s ch = step_host i s ch
step_in sw_host_ip_literal i s ch = step_literal i s ch
step_in sw_host_end i s ch = if ch == b':' then some (record s { state = sw_port }) else none
step_in sw_port i s ch = step_port s ch

-- The loop from index `i`; `none` is NGX_DECLINED.
pub scan : ℕ → Scan → Bytes → Option Scan
unfolding step_in
scan i s [] = some s
scan i s (ch ∷ rest) = step_in s.state i s ch >>= λ t. scan (suc i) t rest

pub data HostResult : Type 0 where
  valid : Bytes → HostResult
  declined : HostResult
  error : HostResult

-- Whether the loop ended inside an IP literal.
abbrev in_literal : HostState → Bool
in_literal sw_host_ip_literal = true
in_literal _ = false

-- Behind the loop; `granted` says whether `ngx_pnalloc` gives memory.
pub finish : Ngx → (granted : Bool) → Bytes → Scan → HostResult
finish ngx granted host s =
    if in_literal s.state
    then declined
    else (let host_len =
          if s.dot_pos == pred_size s.host_len then pred_size s.host_len else s.host_len in
        if host_len == 0
        then declined
        else if s.alloc
        then if granted then valid (ngx.strlow (take host_len host)) else error
        else valid (take host_len host))

conclude : Ngx → Bool → Bytes → Option Scan → HostResult
unfolding finish
conclude ngx granted host none = declined
conclude ngx granted host (some s) = finish ngx granted host s

abbrev pub initial : Bytes → Bool → Scan
initial host alloc = record {
  state = sw_host_start;
  dot_pos = length host;
  host_len = length host;
  port = 0;
  alloc = alloc;
}

-- `valid` carries the host that the function leaves in its argument.
unfoldable pub validate_host : Ngx → (granted : Bool) → Bytes → (alloc : Bool) → HostResult
unfolding scan conclude
validate_host ngx granted host alloc = conclude ngx granted host (scan 0 (initial host alloc) host)
