-- ===== src/Input/Replaced.antt =====
-- The header line of a request whose value `set_header_helper` replaces.
use ngx_http_headers_control.Common.{
  NotIn, ℕ, zero, suc, ◌<◌, ◌≡◌, refl, sym, ◌∙◌, true, false, none, some, List, [], ◌∷◌, ◌++◌, ◌==◌,
  length, map, arith,
}
use ngx_http_headers_control.Ngx.{Bytes, Ngx, rc_ok}
use ngx_http_headers_control.Request.{Heap, write_elt, Request, Http, Cursor, at_cursor}
use ngx_http_headers_control.Request.Whole.{IsList, listed}
use ngx_http_headers_control.Request.Store.{write_ne}
use ngx_http_headers_control.Request.Walk.{walk-elements}
use ngx_http_headers_control.Output.{is_add, is_append}
use ngx_http_headers_control.Output.Lines.{any_match}
use ngx_http_headers_control.Input.{
  InRule, Target, store, in_matches, search_in, ended, reaches, search_retry, after_search_in,
  set_header_helper_in,
}
use ngx_http_headers_control.Input.Kept.{fields, fields-agree, search_in-idle}

-- The store with another value in one element.
abbrev pub with_value : Heap → ℕ → Bytes → Heap
with_value heap b value = write_elt heap b (record (heap.elt b) { value = value })

module _ (ngx : Ngx) (hv : InRule) (value : Bytes) (sent : (length value == 0) ≡ false)
    (op : is_add hv.opcode ≡ false) where
  search_in-one :
      (cursors : List Cursor) (heap : Heap) (pre : List ℕ) (b : ℕ) (post : List ℕ)
      → map (at_cursor heap) cursors ≡ pre ++ b ∷ post
      → any_match (in_matches ngx hv value) (fields heap pre) ≡ false
      → in_matches ngx hv value (heap.elt b).key ≡ true
      → any_match (in_matches ngx hv value) (fields heap post) ≡ false
      → NotIn b post
      → search_in ngx hv value cursors heap none none
        ≡ ended (with_value heap b value) (some (some b)) (some b)
  unfolding search_in
  search_in-one [] heap [] b post at before hit behind out = cc
  search_in-one [] heap (p ∷ pre) b post at before hit behind out = cc
  search_in-one (c ∷ rest) heap [] b post at before hit behind out =
      let here : at_cursor heap c ≡ b = cc in
      let further : map (at_cursor heap) rest ≡ post = cc in
      let hit_here : in_matches ngx hv value (heap.elt (at_cursor heap c)).key ≡ true =
        rw here hit in
      let same =
        fields-agree heap (with_value heap (at_cursor heap c) value) (at_cursor heap c) post
          (λ d ne. write_ne heap.elt (at_cursor heap c) d _ (λ e. ne (sym e))) (rw here out) in
      rw (← here, hit_here, op, sent, search_in)
        (search_in-idle ngx hv value rest (with_value heap (at_cursor heap c) value)
          (some (some (at_cursor heap c))) (some (at_cursor heap c)) (rw (further, same) behind))
  search_in-one (c ∷ rest) heap (p ∷ pre) b post at before hit behind out =
      let here : at_cursor heap c ≡ p = cc in
      let further : map (at_cursor heap) rest ≡ pre ++ b ∷ post = cc in
      let miss : in_matches ngx hv value (heap.elt p).key ≡ false = ground arith in
      rw (here, miss, search_in)
        (search_in-one rest heap pre b post further (ground arith) hit behind out)

module _ (ngx : Ngx) (http : Http) (r : Request) (hv : InRule) (value : Bytes) (qs : List ℕ)
    (whole : IsList r.heap r.headers_in.headers qs) where
  search_retry-one :
      (rounds fuel : ℕ) (pre : List ℕ) (b : ℕ) (post : List ℕ)
      → 0 < rounds
      → length (listed r.heap r.headers_in.headers qs) < fuel
      → (length value == 0) ≡ false
      → is_add hv.opcode ≡ false
      → listed r.heap r.headers_in.headers qs ≡ pre ++ b ∷ post
      → any_match (in_matches ngx hv value) (fields r.heap pre) ≡ false
      → in_matches ngx hv value (r.heap.elt b).key ≡ true
      → any_match (in_matches ngx hv value) (fields r.heap post) ≡ false
      → NotIn b post
      → search_retry ngx http rounds fuel r hv value none none
        ≡ some (reaches (record r { heap = with_value r.heap b value }) (some (some b)) true)
  unfolding search_retry
  search_retry-one zero fuel pre b post some_round enough sent op at before hit behind out =
      elim some_round [ ]
  search_retry-one (suc rounds) fuel pre b post some_round enough sent op at before hit behind out =
      let (cursors, walked, visited) =
        walk-elements r.heap fuel r.headers_in.headers.part qs whole.linked whole.filled enough in
      rw
        (
          search_retry,
          walked,
          search_in-one ngx hv value sent op cursors r.heap pre b post (visited ∙ at) before hit
              behind out,
        )
        refl

  -- In a list of request headers whose parts are linked, filled behind the first and end with
  -- last, and with more fuel than it has elements, a rule other than add and append with a value
  -- that is not empty, whose name matches exactly one element of the list, which stands in it
  -- once, succeeds: that element takes the value, everything else in the store stays as it is, and
  -- the target, a slot or a variable of the caller, points to that element.
  pub set_header_helper_in-replaces :
      (target : Target) (fuel : ℕ) (pre : List ℕ) (b : ℕ) (post : List ℕ)
      → length (listed r.heap r.headers_in.headers qs) < fuel
      → (length value == 0) ≡ false
      → is_add hv.opcode ≡ false
      → is_append hv.opcode ≡ false
      → listed r.heap r.headers_in.headers qs ≡ pre ++ b ∷ post
      → any_match (in_matches ngx hv value) (fields r.heap pre) ≡ false
      → in_matches ngx hv value (r.heap.elt b).key ≡ true
      → any_match (in_matches ngx hv value) (fields r.heap post) ≡ false
      → NotIn b post
      → set_header_helper_in ngx http fuel r hv value target
        ≡ some (
          rc_ok,
          record r {
            heap = with_value r.heap b value;
            headers_in = store target (some (some b)) r.headers_in;
          },
          some (some b),
        )
  unfolding set_header_helper_in after_search_in
  set_header_helper_in-replaces target fuel pre b post enough sent op no_append at before hit behind
        out =
      let rounds : 0 < fuel = omega (arith, enough) in
      rw
        (
          no_append,
          search_retry-one fuel fuel pre b post rounds enough sent op at before hit behind out,
        )
        refl
