-- ===== src/Output/Setters.antt =====
-- The handlers of the known response headers, but for Content-Type.
use ngx_http_headers_control.Common.{
  ℕ, zero, suc, false, Option, none, some, [], ◌∷◌, ◌==◌, if◌then◌else◌, ◌>>=◌, length,
}
use ngx_http_headers_control.Ngx.{Bytes, Ngx, Rc, rc_ok, rc_error}
use ngx_http_headers_control.Request.{Heap, write_elt, Request, Http}
use ngx_http_headers_control.Output.{OutRule, is_add, is_rewrite, set_slot, set_header_helper}

-- `for (h = (*headers)->next; h; h = h->next) { h->hash = 0; h->value.len = 0; }`
pub clear_rest : ℕ → Heap → Option ℕ → Option Heap
clear_rest fuel heap none = some heap
clear_rest zero heap (some a) = none
clear_rest (suc fuel) heap (some a) =
    clear_rest fuel (write_elt heap a (record (heap.elt a) { hash = 0; value = [] }))
      (heap.elt a).next

-- "Cache-Control"
abbrev pub cache_control_key : Bytes
cache_control_key =
    b'C' ∷ b'a' ∷ b'c' ∷ b'h' ∷ b'e' ∷ b'-' ∷ b'C' ∷ b'o' ∷ b'n' ∷ b't' ∷ b'r' ∷ b'o' ∷ b'l' ∷ []

module _ (ngx : Ngx) (http : Http) where
  -- `set_builtin_header`
  unfoldable pub set_builtin_header_out : ℕ → Request → OutRule → Bytes → Option (Rc × Request)
  set_builtin_header_out fuel r hv value = elim (hv.offset >>= r.headers_out.slots) [
    | none ↦
        if is_rewrite hv.opcode
        then some (rc_ok, r)
        else set_header_helper ngx http fuel r hv value hv.offset false
    | some a ↦
        if is_add hv.opcode
        then some (rc_ok, r)
        else some (
          rc_ok,
          record r {
            heap = write_elt r.heap a (
                if length value == 0
                then record (r.heap.elt a) { hash = 0; value = value }
                else record (r.heap.elt a) { hash = hv.hash; key = hv.key; value = value });
          },
        )
  ]

  -- `set_builtin_multi_header`. The last loop of the source starts at a null pointer and ends at
  -- once, so the new element goes into the slot.
  unfoldable pub set_builtin_multi_header_out :
      ℕ → Request → OutRule → Bytes → Option (Rc × Request)
  unfolding clear_rest
  set_builtin_multi_header_out fuel r hv value = elim (hv.offset >>= r.headers_out.slots) [
    | some a ↦ (do
      heap ← clear_rest fuel r.heap (r.heap.elt a).next
      some (
        rc_ok,
        record r {
          heap = write_elt heap a (record (heap.elt a) {
            value = value;
            hash = (if length value == 0 then 0 else hv.hash);
          });
        },
      ))
    | none ↦
        if length value == 0
        then some (rc_ok, r)
        else elim (http.list_push r.headers_out.headers r.heap) [
          | none ↦ some (rc_error, r)
          | some (a, headers, heap) ↦ some (
            rc_ok,
            record r {
              heap = write_elt heap a (record (heap.elt a) {
                value = value;
                hash = hv.hash;
                key = cache_control_key;
                next = none;
              });
              headers_out =
                  set_slot hv.offset (some a) (record (r.headers_out) { headers = headers });
            },
          )
        ]
  ]

  -- `set_accept_ranges_header`
  unfoldable pub set_accept_ranges_header_out :
      ℕ → Request → OutRule → Bytes → Option (Rc × Request)
  set_accept_ranges_header_out fuel r hv value =
      set_builtin_header_out fuel
        (if length value == 0 then record r { allow_ranges = false } else r) hv value

  -- `set_content_length_header`, with `clear_content_length_header` and `clear_builtin_header`
  unfoldable pub set_content_length_header_out :
      ℕ → Request → OutRule → Bytes → Option (Rc × Request)
  set_content_length_header_out fuel r hv value =
      if length value == 0
      then set_builtin_header_out fuel
          (record r { headers_out = record (r.headers_out) { content_length_n = none } }) hv []
      else elim (ngx.atosz value) [
        | none ↦ some (rc_error, r)
        | some len ↦
            set_builtin_header_out fuel
              (record r { headers_out = record (r.headers_out) { content_length_n = some len } }) hv
              value
      ]
