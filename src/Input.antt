-- ===== src/Input.antt =====
-- The request headers of ngx_http_headers_control_headers_in.c: `set_header_helper`, which searches,
-- removes and creates header lines. A result `none` is a loop that ran out of fuel, a failed
-- assertion, or a write through a pointer that was never set.
pub mod Setters
pub mod Kept
pub mod Replaced
pub mod Created
pub mod Agent
pub mod Exec
use ngx_http_headers_control.Common.{
  ℕ, zero, suc, ◌+◌, ◌-◌, Bool, true, false, not, ◌&&◌, ◌||◌, Option, none, some, List, [], ◌∷◌,
  ◌==◌, leb, if◌then◌else◌, ◌>>=◌, length, map,
}
use ngx_http_headers_control.Ngx.{Bytes, Ngx, Rc, rc_ok, rc_error, same_key}
use ngx_http_headers_control.Rule.{HeaderVal}
use ngx_http_headers_control.Request.{
  Elt, Part, Heap, HeaderList, write_elt, write_part, InSlot, in_slot_index, HeadersIn, Request,
  palloc, Http, Cursor, at_cursor, walk,
}
use ngx_http_headers_control.Remove.{Removed, same_ptr, rm_header_helper}
use ngx_http_headers_control.Output.{is_add, is_append, is_rewrite, created}

pub data InHandler : Type 0 where
  set_header set_builtin_header set_host_header set_connection_header : InHandler
  set_user_agent_header set_content_length_header set_builtin_multi_header : InHandler

abbrev pub InRule : Type 0
InRule = HeaderVal InHandler InSlot

-- What `output_header` points to: nothing, a slot, or a variable of the caller.
pub data Target : Type 0 where
  nowhere : Target
  slot : InSlot → Target
  variable : Target

-- What was last written through it: nothing, NULL, or an element.
abbrev pub Written : Type 0
Written = Option (Option ℕ)

abbrev pub set_in_slot : InSlot → Option ℕ → HeadersIn → HeadersIn
set_in_slot s a hi = record hi {
  slots = λ t. if in_slot_index t == in_slot_index s then a else hi.slots t;
}

abbrev pub store : Target → Written → HeadersIn → HeadersIn
store (slot s) (some a) hi = set_in_slot s a hi
store _ _ hi = hi

-- One pass of the loop: the NGX_OK of an `add`, an element to remove, or the end.
pub data Pass : Type 0 where
  added : Pass
  removes : Cursor → Heap → Written → (matched : Option ℕ) → Pass
  ended : Heap → Written → (matched : Option ℕ) → Pass

module _ (ngx : Ngx) where
  -- The tests of the loop on one element: a wildcard matches when there is no value.
  abbrev pub in_matches : InRule → Bytes → Bytes → Bool
  in_matches hv value key =
      (not hv.wildcard && same_key ngx key hv.key)
      || (hv.wildcard
          && length value == 0
          && (leb (length hv.key - 1) (length key)
              && ngx.strncasecmp key hv.key (length hv.key - 1)))

  -- `matched && matched != &h[i]`
  abbrev pub another : Option ℕ → ℕ → Bool
  another none a = false
  another (some m) a = not (m == a)

  pub search_in : InRule → Bytes → List Cursor → Heap → Written → (matched : Option ℕ) → Pass
  search_in hv value [] heap out matched = ended heap out matched
  search_in hv value (c ∷ rest) heap out matched =
      let a = at_cursor heap c in
      elim (in_matches hv value (heap.elt a).key) [
        | false ↦ search_in hv value rest heap out matched
        | true ↦ elim (is_add hv.opcode) [
          | true ↦ added
          | false ↦ elim (length value == 0 || another matched a) [
            | true ↦ removes c (write_elt heap a (record (heap.elt a) { hash = 0 })) out matched
            | false ↦
                search_in hv value rest (write_elt heap a (record (heap.elt a) { value = value }))
                  (some (some a)) (elim matched [ none ↦ some a | some m ↦ some m ])
          ]
        ]
      ]

-- `!(part.next == NULL && last != &part)`
abbrev consistent : HeaderList → Heap → Bool
consistent l heap =
    not (same_ptr (heap.parts l.part).next none && not (same_ptr l.last (some l.part)))

abbrev set_list : HeaderList → HeadersIn → HeadersIn
set_list l hi = record hi { headers = l }

-- How the search ends: with a return code, or at the end of the list.
pub data Found : Type 0 where
  returns : Rc → Request → Written → Found
  reaches : Request → Written → (matched : Bool) → Found

abbrev is_some : Option ℕ → Bool
is_some none = false
is_some (some a) = true

-- `r->parent->headers_in = r->headers_in`, up to the main request: the list's own part is copied,
-- and the pointer to the last part as it is.
pub copy_up : Heap → HeadersIn → List HeadersIn → Heap × List HeadersIn
copy_up heap hi [] = (heap, [])
copy_up heap hi (parent ∷ parents) =
    let heap' = write_part heap parent.headers.part (heap.parts hi.headers.part) in
    let copy = record hi { headers = record (hi.headers) { part = parent.headers.part } } in
    let (heap'', above) = copy_up heap' copy parents in (heap'', copy ∷ above)

module _ (ngx : Ngx) (http : Http) where
  -- `retry:` and the loop; `rounds` bounds the retries and `fuel` each walk.
  pub search_retry :
      (rounds fuel : ℕ) → Request → InRule → Bytes → Written → (matched : Option ℕ) → Option Found
  unfolding search_in
  search_retry zero fuel r hv value out matched = none
  search_retry (suc rounds) fuel r hv value out matched =
      elim (walk fuel r.heap r.headers_in.headers.part 0) [
        | none ↦ none
        | some cursors ↦ elim (search_in ngx hv value cursors r.heap out matched) [
          | added ↦ some (returns rc_ok r out)
          | ended heap out' matched' ↦
              some (reaches (record r { heap = heap }) out' (is_some matched'))
          | removes c heap out' matched' ↦
              elim (rm_header_helper fuel r.headers_in.headers heap r.pool c.part c.index) [
                | none ↦ none
                | some removed ↦
                    let r' = record r {
                      heap = removed.heap;
                      pool = removed.pool;
                      headers_in = set_list removed.list r.headers_in;
                    } in
                    elim (consistent removed.list removed.heap) [
                      | false ↦ none
                      | true ↦ elim removed.rc [
                        | rc_ok ↦ search_retry rounds fuel r' hv value (some none) matched'
                        | _ ↦ some (returns rc_error r' out')
                      ]
                    ]
              ]
        ]
      ]

  -- `create:`
  create_in : Request → InRule → Bytes → Target → Written → Rc × Request × Written
  unfolding copy_up
  create_in r hv value target out = elim r.headers_in.headers.last [
    | none ↦ (rc_ok, r, out)
    | some _ ↦ elim (http.list_push r.headers_in.headers r.heap) [
      | none ↦ (rc_error, r, out)
      | some (a, headers, heap) ↦
          let pushed = record r {
            heap = write_elt heap a (created hv value (heap.elt a));
            headers_in = set_list headers r.headers_in;
          } in
          elim (palloc pushed).0 [
            | none ↦ (rc_error, (palloc pushed).1, out)
            | some _ ↦
                let heap' =
                  write_elt pushed.heap a
                    (record (pushed.heap.elt a) { lowcase_key = ngx.strlow hv.key }) in
                let headers_in' = store target (some (some a)) pushed.headers_in in
                let done = record (palloc pushed).1 { heap = heap'; headers_in = headers_in' } in
                elim target [
                  | nowhere ↦ (rc_ok, done, out)
                  | _ ↦
                      let (heap'', parents) = copy_up heap' headers_in' r.parents in
                      (rc_ok, record done { heap = heap''; parents = parents }, some (some a))
                ]
          ]
    ]
  ]

  finish_in : Request → Rc → Target → Written → Rc × Request × Written
  finish_in r rc target out = (rc, record r { headers_in = store target out r.headers_in }, out)

  -- Behind the loop.
  after_search_in : InRule → Bytes → Target → Found → Rc × Request × Written
  unfolding create_in finish_in
  after_search_in hv value target (returns rc r out) = finish_in r rc target out
  after_search_in hv value target (reaches r out matched) =
      if matched
      then finish_in r rc_ok target out
      else if length value == 0 || is_rewrite hv.opcode
      then finish_in r rc_ok target out
      else create_in (record r { headers_in = store target out r.headers_in }) hv value target out

  -- `set_header_helper`: the return code, the request and what was written to the target.
  unfoldable pub set_header_helper_in :
      ℕ → Request → InRule → Bytes → Target → Option (Rc × Request × Written)
  unfolding search_retry after_search_in
  set_header_helper_in fuel r hv value target =
      if is_append hv.opcode then some (create_in r hv value target none) else (do
        found ← search_retry fuel fuel r hv value none none
        some (after_search_in hv value target found))
