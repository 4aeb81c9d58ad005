-- ===== src/Output.antt =====
-- The response headers of ngx_http_headers_control_headers_out.c: the table, the search and
-- creation of header lines; the handlers are in the children. A result `none` is a loop that ran out of fuel.
pub mod Setters
pub mod ContentType
pub mod Exec
pub mod Lines
mod Idle
pub mod Effect
pub mod Created
use ngx_http_headers_control.Common.{
  ℕ, zero, suc, ◌+◌, ◌-◌, Bool, true, false, not, ◌&&◌, ◌||◌, Option, none, some, List, [], ◌∷◌,
  ◌==◌, leb, ltb, if◌then◌else◌, ◌>>=◌, length, map,
}
use ngx_http_headers_control.Ngx.{Bytes, Ngx, Rc, rc_ok, rc_error, rc_declined, same_key, hash_str}
use ngx_http_headers_control.Rule.{
  Opcode, opcode_set, opcode_clear, opcode_add, opcode_append, opcode_rewrite, opcode_pass,
  HeaderVal, Handlers,
}
use ngx_http_headers_control.Request.{
  Elt, Heap, HeaderList, write, write_elt, OutSlot, out_location, out_slot_index, HeadersOut,
  Request, palloc, Http, Cursor, at_cursor, walk,
}

pub data OutHandler : Type 0 where
  set_header set_builtin_header set_accept_ranges_header set_content_length_header : OutHandler
  set_content_type_header set_builtin_multi_header : OutHandler

abbrev pub OutRule : Type 0
OutRule = HeaderVal OutHandler OutSlot

abbrev pub is_add : Opcode → Bool
is_add opcode_add = true
is_add _ = false

abbrev pub is_append : Opcode → Bool
is_append opcode_append = true
is_append _ = false

abbrev pub is_rewrite : Opcode → Bool
is_rewrite opcode_rewrite = true
is_rewrite _ = false

-- "Location"
abbrev pub location_key : Bytes
location_key = b'L' ∷ b'o' ∷ b'c' ∷ b'a' ∷ b't' ∷ b'i' ∷ b'o' ∷ b'n' ∷ []

-- `ngx_http_headers_control_location_hash`, as `post_config` sets it: the hash of "location".
abbrev pub location_hash : Ngx → ℕ
location_hash ngx = hash_str ngx (b'l' ∷ b'o' ∷ b'c' ∷ b'a' ∷ b't' ∷ b'i' ∷ b'o' ∷ b'n' ∷ [])

abbrev starts_slash : Bytes → Bool
starts_slash [] = false
starts_slash (c ∷ cs) = c == b'/'

-- The tests of the loop on one element.
abbrev pub key_matches : {H S : Type 0} → Ngx → HeaderVal H S → Bytes → Bool
key_matches ngx hv key =
    (not hv.wildcard && same_key ngx key hv.key)
    || (hv.wildcard
        && (leb (length hv.key - 1) (length key) && ngx.strncasecmp key hv.key (length hv.key - 1)))

-- The loop's result: `added` is the NGX_OK of an `add` that found the header, `ended` has the store,
-- the last element that matched, and whether one did.
pub data Search : Type 0 where
  added : Heap → Search
  ended : Heap → Option ℕ → Bool → Search

module _ (ngx : Ngx) where
  -- The work-around for a Location with no key.
  unfoldable pub fix_location : Request → Request
  fix_location r = elim (r.headers_out.slots out_location) [
    | none ↦ r
    | some a ↦
        if starts_slash (r.heap.elt a).value
        then record r {
          heap =
              write_elt r.heap a
                (record (r.heap.elt a) { hash = location_hash ngx; key = location_key });
        }
        else r
  ]

  -- The element that `matched:` leaves.
  abbrev pub change : OutRule → Bytes → Bool → Elt → Elt
  change hv value matched h =
      if length value == 0 || matched
      then record h { value = []; hash = 0 }
      else record h { value = value; hash = hv.hash }

  -- The loop over the elements at the given addresses. `out` is what `*output_header` was set to.
  unfoldable pub search_out : OutRule → Bytes → List ℕ → Heap → Option ℕ → Bool → Search
  search_out hv value [] heap out matched = ended heap out matched
  search_out hv value (a ∷ rest) heap out matched =
      elim (not ((heap.elt a).hash == 0) && key_matches ngx hv (heap.elt a).key) [
        | false ↦ search_out hv value rest heap out matched
        | true ↦ elim (is_add hv.opcode) [
          | true ↦ added heap
          | false ↦
              search_out hv value rest (write_elt heap a (change hv value matched (heap.elt a)))
                (some a) true
        ]
      ]

-- `*output_header = a`, where `output_header` is not NULL.
abbrev pub set_slot : Option OutSlot → Option ℕ → HeadersOut → HeadersOut
set_slot none a ho = ho
set_slot (some s) a ho = record ho {
  slots = λ t. if out_slot_index t == out_slot_index s then a else ho.slots t;
}

-- The new element.
abbrev pub created : {H S : Type 0} → HeaderVal H S → Bytes → Elt → Elt
created hv value h = record h {
  hash = (if length value == 0 then 0 else hv.hash);
  key = hv.key;
  value = value;
  next = none;
}

module _ (ngx : Ngx) (http : Http) where
  -- `append:`
  unfoldable pub create_out : OutRule → Bytes → Option OutSlot → Request → Rc × Request
  create_out hv value output_header r = elim (http.list_push r.headers_out.headers r.heap) [
    | none ↦ (rc_error, r)
    | some (a, headers, heap) ↦
        let pushed = record r {
          heap = write_elt heap a (created hv value (heap.elt a));
          headers_out = record (r.headers_out) { headers = headers };
        } in
        elim (palloc pushed).0 [
          | none ↦ (rc_error, (palloc pushed).1)
          | some _ ↦ (
            rc_ok,
            record (palloc pushed).1 {
              heap =
                  write_elt pushed.heap a
                    (record (pushed.heap.elt a) { lowcase_key = ngx.strlow hv.key });
              headers_out = set_slot output_header (some a) pushed.headers_out;
            },
          )
        ]
  ]

  -- Behind the loop; `output_header` was set on the way if an element matched.
  unfoldable pub after_search :
      OutRule → Bytes → Option OutSlot → Bool → Request → Search → Rc × Request
  unfolding create_out
  after_search hv value output_header no_create r (added heap) = (rc_ok, record r { heap = heap })
  after_search hv value output_header no_create r (ended heap out matched) =
      let found = record r {
        heap = heap;
        headers_out = (if matched then set_slot output_header out r.headers_out else r.headers_out);
      } in
      if matched
      then (rc_ok, found)
      else if is_rewrite hv.opcode || ((hv.wildcard || no_create) && length value == 0)
      then (rc_ok, found)
      else create_out hv value output_header found

  -- `set_header_helper`; `output_header` is the slot that it points to, if any.
  unfoldable pub set_header_helper :
      ℕ
      → Request
      → OutRule
      → Bytes
      → (output_header : Option OutSlot) → (no_create : Bool) → Option (Rc × Request)
  unfolding after_search fix_location
  set_header_helper fuel r hv value output_header no_create =
      let r' = fix_location ngx r in
      if is_append hv.opcode then some (create_out hv value output_header r') else (do
        cursors ← walk fuel r'.heap r'.headers_out.headers.part 0
        some (
            after_search hv value output_header no_create r'
              (search_out ngx hv value (map (at_cursor r'.heap) cursors) r'.heap none false)))
