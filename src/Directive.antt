-- ===== src/Directive.antt =====
-- The directives: `parse_directive` and `parse_header` of ngx_http_headers_control_util.c. The
-- pool's answers and what `ngx_http_compile_complex_value` makes of a text are a parameter. A
-- failed directive aborts the configuration, so a failure carries no state.
pub mod Accepted
mod Spelled
mod Parsed
pub mod Words
pub mod Written
use ngx_http_headers_control.Common.{
  ℕ, zero, suc, ◌+◌, ◌<◌, Bool, true, false, not, ◌&&◌, ◌||◌, Option, none, some, List, [], ◌∷◌,
  ◌++◌, ◌==◌, ltb, if◌then◌else◌, ◌>>=◌, length, take, drop,
}
use ngx_http_headers_control.Ngx.{Bytes, Ngx, isspace}
use ngx_http_headers_control.Rule.{
  Opcode, opcode_set, opcode_clear, opcode_add, opcode_append, opcode_rewrite, opcode_pass,
  HeaderVal, SetHeader, Handlers, LocConf, MainConf,
}

pub record ConfPool : Type 0 where
  -- `ngx_array_create`, `ngx_array_push`
  pub array_created : Bool
  pub array_pushed : Bool
  -- `ngx_palloc` for the condition, and for the value with its terminator
  pub filter_granted : Bool
  pub value_granted : Bool
  -- `ngx_http_compile_complex_value(...) == NGX_OK`
  pub compiles : Bytes → Bool

-- A step that fails where the test holds.
abbrev refuse_if : Bool → Option (Unit {0})
refuse_if b = if b then none else some tt

infixl 5 ◌>>◌
abbrev ◌>>◌ {ℓ} : {B : Type ℓ} → Option (Unit {0}) → Option B → Option B
m >> k = m >>= λ _. k

-- `ngx_strncmp(a, b, b_len) == 0` for a pattern `b` of the C source, with no NUL in it.
unfoldable pub starts_with : Bytes → Bytes → Bool
starts_with [] a = true
starts_with (c ∷ b) [] = false
starts_with (c ∷ b) (d ∷ a) = c == d && starts_with b a

module _ (ngx : Ngx) where
  is_word : Bytes → Bytes → Bool
  is_word arg word = length arg == length word && ngx.strncasecmp arg word (length word)

  -- The first argument of a directive.
  unfoldable pub parse_opcode : Bytes → Option Opcode
  unfolding is_word
  parse_opcode arg =
      if is_word arg (b's' ∷ b'e' ∷ b't' ∷ [])
      then some opcode_set
      else if is_word arg (b'a' ∷ b'd' ∷ b'd' ∷ [])
      then some opcode_add
      else if is_word arg (b'p' ∷ b'a' ∷ b's' ∷ b's' ∷ [])
      then some opcode_pass
      else if is_word arg (b'c' ∷ b'l' ∷ b'e' ∷ b'a' ∷ b'r' ∷ [])
      then some opcode_clear
      else if is_word arg (b'a' ∷ b'p' ∷ b'p' ∷ b'e' ∷ b'n' ∷ b'd' ∷ [])
      then some opcode_append
      else if is_word arg (b'r' ∷ b'e' ∷ b'w' ∷ b'r' ∷ b'i' ∷ b't' ∷ b'e' ∷ [])
      then some opcode_rewrite
      else none

unfoldable pub any_space : Bytes → Bool
unfolding isspace
any_space [] = false
any_space (c ∷ cs) = isspace c || any_space cs

abbrev ends_star : Bytes → Bool
ends_star [] = false
ends_star (c ∷ []) = c == b'*'
ends_star (c ∷ d ∷ cs) = ends_star (d ∷ cs)

abbrev is_clear : Opcode → Bool
is_clear opcode_clear = true
is_clear _ = false

-- The value of a rule that has one is compiled with a NUL behind it.
abbrev pub compiled : ConfPool → Bytes → Option Bytes
compiled pool [] = some []
compiled pool (c ∷ cs) = do
  refuse_if (not pool.value_granted)
  let text = c ∷ (cs ++ 0 ∷ [])
  refuse_if (not (pool.compiles text))
  some text

-- `-n`
abbrev pub next_flag : List Bytes → Bool × List Bytes
next_flag [] = (false, [])
next_flag (arg ∷ args) =
    if length arg == 2 && starts_with (b'-' ∷ b'n' ∷ []) arg
    then (true, args)
    else (false, arg ∷ args)

abbrev pub first_arg : List Bytes → Option (Bytes × List Bytes)
first_arg [] = none
first_arg (arg ∷ args) = some (arg, args)

abbrev takes_value : Opcode → Bool
takes_value opcode_clear = false
takes_value opcode_pass = false
takes_value _ = true

-- `negative` and the text of an `if=` or `if!=`
pub parse_condition : Bytes → Option (Bool × Bytes)
parse_condition arg =
    if ltb 3 (length arg) && starts_with (b'i' ∷ b'f' ∷ b'=' ∷ []) arg
    then some (false, drop 3 arg)
    else if ltb 4 (length arg) && starts_with (b'i' ∷ b'f' ∷ b'!' ∷ b'=' ∷ []) arg
    then some (true, drop 4 arg)
    else none

abbrev is_append : Opcode → Bool
is_append opcode_append = true
is_append _ = false

module _ {H S : Type 0} where
  abbrev elements : Option (List (HeaderVal H S)) → List (HeaderVal H S)
  elements none = []
  elements (some hs) = hs

  abbrev is_null : Option (List (HeaderVal H S)) → Bool
  is_null none = true
  is_null (some hs) = false

  -- The offset and the handler of a rule: those of its row, or of the closing row of the table.
  abbrev pub place : Handlers H S → Option (SetHeader H S) → Option S × H
  place table none = (none, table.default)
  place table (some row) = (row.offset, row.handler)

  -- The array element after `ngx_memzero`, with its operation. A cleared handler is never called:
  -- `parse_header` sets it.
  abbrev pub cleared : Handlers H S → Opcode → HeaderVal H S
  cleared table opcode = record {
    value = [];
    hash = 0;
    key = [];
    handler = table.default;
    offset = none;
    opcode = opcode;
    filter = none;
    negative = false;
    next = false;
    id = 0;
    wildcard = false;
  }

  unfoldable pub with_condition :
      ConfPool → List Bytes → HeaderVal H S → Option (HeaderVal H S × List Bytes)
  unfolding parse_condition starts_with
  with_condition pool [] hv = some (hv, [])
  with_condition pool (arg ∷ args) hv = do
    (negative, s) ← parse_condition arg
    refuse_if (not pool.filter_granted)
    refuse_if (not (pool.compiles s))
    some (record hv { negative = negative; filter = some s }, args)

module _ (ngx : Ngx) {H S : Type 0} where
  -- The row of the table for a header name.
  unfoldable pub find_row : Bytes → List (SetHeader H S) → Option (SetHeader H S)
  find_row key [] = none
  find_row key (row ∷ rows) =
      if length key == length row.name && ngx.strncasecmp key row.name (length row.name)
      then some row
      else find_row key rows

  -- `parse_header` on the cleared rule `hv`; `none` is NGX_ERROR.
  unfoldable pub parse_header :
      ConfPool
      → (key value : Bytes) → HeaderVal H S
      → Opcode
      → Handlers H S
      → Option (HeaderVal H S)
  parse_header pool key value hv opcode table = do
    refuse_if (length key == 0)
    refuse_if (any_space key)
    let (offset, handler) = place table (find_row key table.rows)
    text ← compiled pool (if is_clear opcode then [] else value)
    some (record hv {
      wildcard = ends_star key;
      hash = ngx.hash_key_lc key;
      key = key;
      offset = offset;
      handler = handler;
      value = text;
    })

  unfoldable pub is_builtin_header : Bytes → List (SetHeader H S) → Bool
  is_builtin_header key [] = false
  is_builtin_header key (row ∷ rows) =
      (length key == length row.name && ngx.strncasecmp key row.name (length key))
      || is_builtin_header key rows

  -- The rule of a directive, from the arguments behind the operation.
  unfoldable pub parse_rule :
      ConfPool → Opcode → (args : List Bytes) → Handlers H S → Option (HeaderVal H S)
  parse_rule pool opcode args table = do
    let (next, args) = next_flag args
    (key, args) ← first_arg args
    (value, args) ← if takes_value opcode then first_arg args else some ([], args)
    (hv, args) ← with_condition pool args (record (cleared table opcode) { next = next })
    refuse_if (ltb 0 (length args))
    hv ← parse_header pool key value hv opcode table
    refuse_if (is_append opcode && is_builtin_header hv.key table.rows)
    some hv

  -- One direction of `parse_directive`: the array of rules and its counter. `args` are those
  -- behind the name of the directive.
  unfoldable pub add_rule :
      ConfPool
      → (args : List Bytes) → Handlers H S
      → Option (List (HeaderVal H S))
      → ℕ
      → Option (List (HeaderVal H S) × ℕ)
  add_rule pool args table headers cnt = do
    refuse_if (ltb (length args) 2)
    (op, args) ← first_arg args
    opcode ← parse_opcode ngx op
    refuse_if (is_null headers && not pool.array_created)
    refuse_if (not pool.array_pushed)
    hv ← parse_rule pool opcode args table
    some (elements headers ++ record hv { id = cnt } ∷ [], suc cnt)

-- `parse_directive` for `response_header_control` and for `request_header_control`.
module _ (ngx : Ngx) {HI SI HO SO : Type 0} (pool : ConfPool) (args : List Bytes) where
  unfoldable pub output_directive :
      Handlers HO SO → LocConf HI SI HO SO → MainConf → Option (LocConf HI SI HO SO × MainConf)
  output_directive table hlcf hmcf = do
    (headers, cnt) ← add_rule ngx pool args table hlcf.headers_out hlcf.headers_out_cnt
    some (
      record hlcf { headers_out = some headers; headers_out_cnt = cnt },
      record hmcf { requires_filter = true },
    )

  unfoldable pub input_directive :
      Handlers HI SI → LocConf HI SI HO SO → MainConf → Option (LocConf HI SI HO SO × MainConf)
  input_directive table hlcf hmcf = do
    (headers, cnt) ← add_rule ngx pool args table hlcf.headers_in hlcf.headers_in_cnt
    some (
      record hlcf { headers_in = some headers; headers_in_cnt = cnt },
      record hmcf { requires_handler = true },
    )
