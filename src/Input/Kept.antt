-- ===== src/Input/Kept.antt =====
-- The search of `set_header_helper` over the elements of a request's list, and the rules that leave
-- the request as it is.
use ngx_http_headers_control.Common.{
  ℕ, zero, suc, ◌<◌, ◌≡◌, ◌≢◌, NotIn, sym, refl, if◌then◌else◌, inl, inr, true, false, not, ◌&&◌,
  ◌||◌, Option, none, some, List, [], ◌∷◌, ◌==◌, Bool-cases, length, map, arith,
}
use ngx_http_headers_control.Ngx.{Bytes, Ngx, rc_ok}
use ngx_http_headers_control.Rule.{Opcode, opcode_append}
use ngx_http_headers_control.Request.{Heap, HeadersIn, Request, Http, Cursor, at_cursor}
use ngx_http_headers_control.Request.Whole.{IsList, listed}
use ngx_http_headers_control.Request.Walk.{walk-elements}
use ngx_http_headers_control.Output.{is_add, is_append, is_rewrite}
use ngx_http_headers_control.Output.Lines.{any_match}
use ngx_http_headers_control.Input.{
  InRule, Target, nowhere, slot, variable, Written, store, in_matches, search_in, added, ended,
  returns, reaches, search_retry, after_search_in, set_header_helper_in,
}

-- The names and values of the elements at some addresses, those that are switched off included.
abbrev pub fields : Heap → List ℕ → List (Bytes × Bytes)
fields heap [] = []
fields heap (a ∷ rest) = ((heap.elt a).key, (heap.elt a).value) ∷ fields heap rest

pub fields-agree :
    (heap heap' : Heap) (a : ℕ) (addrs : List ℕ)
    → ((b : ℕ) → b ≢ a → heap'.elt b ≡ heap.elt b)
    → NotIn a addrs
    → fields heap' addrs ≡ fields heap addrs
fields-agree heap heap' a [] same out = refl
fields-agree heap heap' a (b ∷ addrs) same out =
    rw (same b (λ e. out.0 (sym e)), fields-agree heap heap' a addrs same out.1) refl

pub store-none : (target : Target) (hi : HeadersIn) → store target none hi ≡ hi
store-none nowhere hi = refl
store-none (slot s) hi = refl
store-none variable hi = refl

add_no_append : (opcode : Opcode) → is_add opcode ≡ true → is_append opcode ≡ false
add_no_append opcode_append e = absurd (ground arith)
add_no_append _ e = refl

module _ (ngx : Ngx) (hv : InRule) (value : Bytes) where
  pub search_in-idle :
      (cursors : List Cursor) (heap : Heap) (out : Written) (matched : Option ℕ)
      → any_match (in_matches ngx hv value) (fields heap (map (at_cursor heap) cursors)) ≡ false
      → search_in ngx hv value cursors heap out matched ≡ ended heap out matched
  unfolding search_in
  search_in-idle [] heap out matched absent = refl
  search_in-idle (c ∷ rest) heap out matched absent =
      let miss : in_matches ngx hv value (heap.elt (at_cursor heap c)).key ≡ false = ground arith in
      let below : any_match (in_matches ngx hv value) (fields heap (map (at_cursor heap) rest))
          ≡ false =
        ground arith in
      rw (miss, search_in) (search_in-idle rest heap out matched below)

  search_in-added :
      (cursors : List Cursor) (heap : Heap) (out : Written) (matched : Option ℕ)
      → is_add hv.opcode ≡ true
      → any_match (in_matches ngx hv value) (fields heap (map (at_cursor heap) cursors)) ≡ true
      → search_in ngx hv value cursors heap out matched ≡ added
  unfolding search_in
  search_in-added [] heap out matched op present = absurd (ground arith)
  search_in-added (c ∷ rest) heap out matched op present =
      elim (Bool-cases (in_matches ngx hv value (heap.elt (at_cursor heap c)).key)) [
        | inl hit ↦ rw (hit, op, search_in) refl
        | inr miss ↦
            let below : any_match (in_matches ngx hv value)
                  (fields heap (map (at_cursor heap) rest))
                ≡ true =
              ground arith in
            rw (miss, search_in) (search_in-added rest heap out matched op below)
      ]

module _ (ngx : Ngx) (http : Http) (r : Request) (hv : InRule) (value : Bytes) (qs : List ℕ)
    (whole : IsList r.heap r.headers_in.headers qs) where
  pub search_retry-idle :
      (rounds fuel : ℕ)
      → 0 < rounds
      → length (listed r.heap r.headers_in.headers qs) < fuel
      → any_match (in_matches ngx hv value) (fields r.heap (listed r.heap r.headers_in.headers qs))
        ≡ false
      → search_retry ngx http rounds fuel r hv value none none ≡ some (reaches r none false)
  unfolding search_retry
  search_retry-idle zero fuel some_round enough absent = elim some_round [ ]
  search_retry-idle (suc rounds) fuel some_round enough absent =
      let (cursors, walked, visited) =
        walk-elements r.heap fuel r.headers_in.headers.part qs whole.linked whole.filled enough in
      rw
        (
          search_retry,
          walked,
          search_in-idle ngx hv value cursors r.heap none none (rw visited absent),
        )
        refl

  search_retry-added :
      (rounds fuel : ℕ)
      → 0 < rounds
      → length (listed r.heap r.headers_in.headers qs) < fuel
      → is_add hv.opcode ≡ true
      → any_match (in_matches ngx hv value) (fields r.heap (listed r.heap r.headers_in.headers qs))
        ≡ true
      → search_retry ngx http rounds fuel r hv value none none ≡ some (returns rc_ok r none)
  unfolding search_retry
  search_retry-added zero fuel some_round enough op present = elim some_round [ ]
  search_retry-added (suc rounds) fuel some_round enough op present =
      let (cursors, walked, visited) =
        walk-elements r.heap fuel r.headers_in.headers.part qs whole.linked whole.filled enough in
      rw
        (
          search_retry,
          walked,
          search_in-added ngx hv value cursors r.heap none none op (rw visited present),
        )
        refl

  -- In a list of request headers whose parts are linked, filled behind the first and end with
  -- last, and with more fuel than it has elements, an add whose name matches some element, and a
  -- rewrite or a rule with an empty value, other than an append, whose name matches none, succeed
  -- and change nothing.
  pub set_header_helper_in-keeps :
      (target : Target) (fuel : ℕ)
      → length (listed r.heap r.headers_in.headers qs) < fuel
      → (if any_match
            (in_matches ngx hv value)
            (fields r.heap (listed r.heap r.headers_in.headers qs))
          then is_add hv.opcode
          else (not (is_append hv.opcode) && (length value == 0 || is_rewrite hv.opcode)))
        ≡ true
      → set_header_helper_in ngx http fuel r hv value target ≡ some (rc_ok, r, none)
  unfolding set_header_helper_in after_search_in
  set_header_helper_in-keeps target fuel enough acts =
      let rounds : 0 < fuel = omega (arith, enough) in
      elim (Bool-cases (
        any_match (in_matches ngx hv value)
          (fields r.heap (listed r.heap r.headers_in.headers qs)))) [
            | inl present ↦
                let op : is_add hv.opcode ≡ true = rw present at acts in
                rw
                  (
                    add_no_append hv.opcode op,
                    search_retry-added fuel fuel rounds enough op present,
                    store-none target r.headers_in,
                  )
                  refl
            | inr absent ↦
                let rest = rw absent at acts in
                let no_append : is_append hv.opcode ≡ false = ground arith in
                let idle : (length value == 0 || is_rewrite hv.opcode) ≡ true = ground arith in
                rw
                  (
                    no_append,
                    search_retry-idle fuel fuel rounds enough absent,
                    idle,
                    store-none target r.headers_in,
                  )
                  refl
          ]
