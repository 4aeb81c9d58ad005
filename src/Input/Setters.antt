-- ===== src/Input/Setters.antt =====
-- The handlers of the known request headers, but for User-Agent.
use ngx_http_headers_control.Common.{
  ℕ, Bool, true, false, ◌||◌, Option, none, some, [], ◌∷◌, ◌==◌, if◌then◌else◌, ◌>>=◌, length,
}
use ngx_http_headers_control.Ngx.{Bytes, Ngx, Rc, rc_ok, rc_error}
use ngx_http_headers_control.Request.{
  write_elt, HeadersIn, Request, palloc, Http, connection_unset, connection_close,
  connection_keep_alive, InSlot,
}
use ngx_http_headers_control.Output.{is_add, is_append}
use ngx_http_headers_control.Host.{valid, error, validate_host}
use ngx_http_headers_control.Input.{
  InRule, Target, nowhere, slot, variable, Written, set_in_slot, set_header_helper_in,
}

-- A call whose target the caller does not read.
abbrev pub drop_written : Option (Rc × Request × Written) → Option (Rc × Request)
drop_written none = none
drop_written (some (rc, r, out)) = some (rc, r)

abbrev target_of : Option InSlot → Target
target_of none = nowhere
target_of (some s) = slot s

module _ (ngx : Ngx) (http : Http) where
  -- `set_builtin_header`
  unfoldable pub set_builtin_header_in : ℕ → Request → InRule → Bytes → Option (Rc × Request)
  set_builtin_header_in fuel r hv value = elim (hv.offset >>= r.headers_in.slots) [
    | none ↦ drop_written (set_header_helper_in ngx http fuel r hv value (target_of hv.offset))
    | some a ↦
        if is_add hv.opcode
        then some (rc_ok, r)
        else if is_append hv.opcode
        then drop_written (set_header_helper_in ngx http fuel r hv value (target_of hv.offset))
        else if length value == 0
        then drop_written (
            set_header_helper_in ngx http fuel
              (record r {
                heap = write_elt r.heap a (record (r.heap.elt a) { hash = 0; value = value });
              })
              hv value (target_of hv.offset))
        else some (
          rc_ok,
          record r {
            heap = write_elt r.heap a (record (r.heap.elt a) { hash = hv.hash; value = value });
          },
        )
  ]

  -- Whether `validate_host` asks the pool for memory: exactly if a refusal makes it fail.
  abbrev asks_pool : Bytes → Bool
  asks_pool host = elim (validate_host ngx false host false) [ error ↦ true | _ ↦ false ]

  abbrev granted : Option ℕ → Bool
  granted none = false
  granted (some a) = true

  -- `set_host_header`
  unfoldable pub set_host_header : ℕ → Request → InRule → Bytes → Option (Rc × Request)
  set_host_header fuel r hv value =
      if length value == 0
      then set_builtin_header_in fuel
          (record r { headers_in = record (r.headers_in) { server = value } }) hv value
      else (let r' = if asks_pool value then (palloc r).1 else r in
          elim (validate_host ngx (granted (palloc r).0) value false) [
            | valid host ↦
                set_builtin_header_in fuel
                  (record r' { headers_in = record (r'.headers_in) { server = host } }) hv value
            | _ ↦ some (rc_error, r')
          ])

  -- `set_content_length_header`, with `clear_content_length_header` and `clear_builtin_header`
  unfoldable pub set_content_length_header_in : ℕ → Request → InRule → Bytes → Option (Rc × Request)
  set_content_length_header_in fuel r hv value =
      if length value == 0
      then set_builtin_header_in fuel
          (record r { headers_in = record (r.headers_in) { content_length_n = none } }) hv []
      else elim (ngx.atosz value) [
        | none ↦ some (rc_error, r)
        | some len ↦
            set_builtin_header_in fuel
              (record r { headers_in = record (r.headers_in) { content_length_n = some len } }) hv
              value
      ]

  abbrev found : Option ℕ → Bool
  found none = false
  found (some a) = true

  -- The connection type, the keep-alive time and the keep-alive flag of a value.
  unfoldable pub connection_fields : Request → Bytes → Request
  connection_fields r value =
      let cleared = record r {
        headers_in = record (r.headers_in) { connection_type = connection_unset };
      } in
      if length value == 0
      then cleared
      else if found (ngx.strcasestrn value (b'c' ∷ b'l' ∷ b'o' ∷ b's' ∷ b'e' ∷ []) 4)
      then record r {
        headers_in = record (r.headers_in) {
          connection_type = connection_close;
          keep_alive_n = none;
        };
        keepalive = false;
      }
      else if found (
          ngx.strcasestrn value
            (b'k' ∷ b'e' ∷ b'e' ∷ b'p' ∷ b'-' ∷ b'a' ∷ b'l' ∷ b'i' ∷ b'v' ∷ b'e' ∷ []) 9)
      then record r {
        headers_in = record (r.headers_in) { connection_type = connection_keep_alive };
      }
      else cleared

  -- `set_connection_header`
  unfoldable pub set_connection_header : ℕ → Request → InRule → Bytes → Option (Rc × Request)
  set_connection_header fuel r hv value =
      set_builtin_header_in fuel (connection_fields r value) hv value

  abbrev is_null : Option ℕ → Bool
  is_null none = true
  is_null (some a) = false

  abbrev set_offset : Option InSlot → Option ℕ → HeadersIn → HeadersIn
  set_offset none a hi = hi
  set_offset (some s) a hi = set_in_slot s a hi

  -- Behind the helper: the new chain is the element that the helper wrote to the variable `h`,
  -- which nothing has set before. `none` is a write through an `h` that is unset or NULL.
  attach : InRule → Bytes → Rc → Request → Written → Option (Rc × Request)
  attach hv value rc_error r out = some (rc_error, r)
  attach hv value _ r out = if length value == 0 then some (rc_ok, r) else elim out [
    | some (some a) ↦ some (
      rc_ok,
      record r {
        heap = write_elt r.heap a (record (r.heap.elt a) { next = none });
        headers_in = set_offset hv.offset (some a) r.headers_in;
      },
    )
    | _ ↦ none
  ]

  -- `set_builtin_multi_header`. Its chain is cleared first, so the walk to its end finds none.
  unfoldable pub set_builtin_multi_header_in : ℕ → Request → InRule → Bytes → Option (Rc × Request)
  unfolding attach
  set_builtin_multi_header_in fuel r hv value =
      if r.headers_out.status == 400 || is_null r.headers_in.headers.last
      then some (rc_ok, r)
      else (do
        (rc, r', out) ←
            set_header_helper_in ngx http fuel
              (record r { headers_in = set_offset hv.offset none r.headers_in }) hv value variable
        attach hv value rc r' out)
