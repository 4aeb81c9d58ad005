-- ===== src/Output/Created.antt =====
-- The header line that `set_header_helper` adds to the list of a response, with `ngx_list_push` by
-- its documentation.
use ngx_http_headers_control.Common.{
  ℕ, ◌<◌, ◌≡◌, ◌≢◌, refl, sym, ap, ◌∙◌, inl, inr, Bool, true, false, not, ◌&&◌, ◌||◌, Option, none,
  some, List, [], ◌∷◌, ◌++◌, ◌==◌, Bool-cases, length, arith,
}
use ngx_http_headers_control.Ngx.{Bytes, Ngx, rc_ok}
use ngx_http_headers_control.Request.{
  Elt, Heap, HeaderList, write_elt, HeadersOut, Request, Http, OutSlot, out_location,
}
use ngx_http_headers_control.Request.Whole.{IsList, listed, IsPush, AgreeOn-all, IsList-same}
use ngx_http_headers_control.Request.Store.{write_ne, write_self}
use ngx_http_headers_control.Request.Walk.{walk-elements}
use ngx_http_headers_control.Remove.Parts.{elements-agree}
use ngx_http_headers_control.Output.{
  OutRule, is_append, is_rewrite, key_matches, set_header_helper, after_search, created, create_out,
  set_slot,
}
use ngx_http_headers_control.Output.Idle.{lines-append, lines-agree, search_out-idle}
use ngx_http_headers_control.Output.Lines.{lines, any_match}
use ngx_http_headers_control.Output.Effect.{fix_location-unmoved}

set_slot-headers :
    (slot : Option OutSlot) (a : Option ℕ) (ho : HeadersOut)
    → (set_slot slot a ho).headers ≡ ho.headers
set_slot-headers none a ho = refl
set_slot-headers (some s) a ho = refl

-- The request holds the list as the push left it, and its lines are the old ones and the new one.
pub record Added (hv : OutRule) (value : Bytes) (r : Request) (qs : List ℕ) (headers : HeaderList)
    (r' : Request) (qs' : List ℕ) : Type 0 where
  pub pushed : r'.headers_out.headers ≡ headers
  pub list : IsList r'.heap r'.headers_out.headers qs'
  pub line :
      lines r'.heap (listed r'.heap r'.headers_out.headers qs')
      ≡ lines r.heap (listed r.heap r.headers_out.headers qs) ++ (hv.key, value) ∷ []

module _ (ngx : Ngx) (http : Http) (fuel : ℕ) (r : Request) (hv : OutRule) (value : Bytes)
    (slot : Option OutSlot) (no_create : Bool) (qs : List ℕ) where
  create_out-Added :
      hv.hash ≢ 0
      → (length value == 0) ≡ false
      → (a : ℕ) (headers : HeaderList) (heap : Heap) (qs' : List ℕ) (granted : ℕ)
        (pool : List (Option ℕ))
      → http.list_push r.headers_out.headers r.heap ≡ some (a, headers, heap)
      → IsPush r.heap r.headers_out.headers qs a heap headers qs'
      → r.pool ≡ some granted ∷ pool
      → (r' : Request) × (create_out ngx http hv value slot r ≡ (rc_ok, r'))
        × Added hv value r qs headers r' qs'
  unfolding create_out
  create_out-Added hash filled a headers heap qs' granted pool gave push memory = (
    r',
    rw (gave, memory, create_out, memory) refl,
    record {
      pushed = kept;
      list = rw kept (IsList-same heap heap' (λ q. refl) headers qs' push.list);
      line = rw (kept, addresses) after;
    },
  )
    where
      line : Elt
      line = record ((write_elt heap a (created hv value (heap.elt a))).elt a) {
        lowcase_key = ngx.strlow hv.key;
      }

      heap' : Heap
      heap' = write_elt (write_elt heap a (created hv value (heap.elt a))) a line

      ho : HeadersOut
      ho = record (r.headers_out) { headers = headers }

      r' : Request
      r' = record r { heap = heap'; pool = pool; headers_out = set_slot slot (some a) ho }

      kept : (set_slot slot (some a) ho).headers ≡ headers
      kept = set_slot-headers slot (some a) ho

      old : List ℕ
      old = listed r.heap r.headers_out.headers qs

      addresses : listed heap' headers qs' ≡ old ++ a ∷ []
      addresses =
          elements-agree heap heap' (headers.part ∷ qs')
            (AgreeOn-all heap heap' (λ q. refl) (headers.part ∷ qs'))
          ∙ push.behind

      others : (b : ℕ) → b ≢ a → heap'.elt b ≡ r.heap.elt b
      others b ne =
          write_ne (write_elt heap a (created hv value (heap.elt a))).elt a b line (λ e. ne (sym e))
          ∙ write_ne heap.elt a b (created hv value (heap.elt a)) (λ e. ne (sym e))
          ∙ push.aside b ne

      after : lines heap' (old ++ a ∷ []) ≡ lines r.heap old ++ (hv.key, value) ∷ []
      after =
          let sent : (hv.hash == 0) ≡ false = ground arith in
          lines-append heap' old (a ∷ [])
          ∙ rw
              (
                lines-agree r.heap heap' a old others push.fresh,
                write_self (write_elt heap a (created hv value (heap.elt a))).elt a line,
                write_self heap.elt a (created hv value (heap.elt a)),
                filled,
                sent,
              )
              refl

  -- With no Location in its slot, a list of response headers whose parts are linked, filled behind
  -- the first and end with last, more fuel than it has elements, memory, a hash that is not 0, a
  -- value that is not empty, and a push that puts a new element behind the others and leaves them
  -- alone: a rule whose name matches no line and that is no rewrite, and every append, succeeds;
  -- the request then holds the list that the push returned, and the lines of that list are the old
  -- ones with one of the name and value of the rule behind them.
  pub set_header_helper-creates :
      r.headers_out.slots out_location ≡ none
      → IsList r.heap r.headers_out.headers qs
      → length (listed r.heap r.headers_out.headers qs) < fuel
      → hv.hash ≢ 0
      → (length value == 0) ≡ false
      → (is_append hv.opcode
          || (not (is_rewrite hv.opcode)
              && not (
                  any_match
                    (key_matches ngx hv)
                    (lines r.heap (listed r.heap r.headers_out.headers qs)))))
        ≡ true
      → (a : ℕ) (headers : HeaderList) (heap : Heap) (qs' : List ℕ) (granted : ℕ)
        (pool : List (Option ℕ))
      → http.list_push r.headers_out.headers r.heap ≡ some (a, headers, heap)
      → IsPush r.heap r.headers_out.headers qs a heap headers qs'
      → r.pool ≡ some granted ∷ pool
      → (r' : Request) × (set_header_helper ngx http fuel r hv value slot no_create
          ≡ some (rc_ok, r'))
        × Added hv value r qs headers r' qs'
  unfolding set_header_helper
  set_header_helper-creates unmoved is enough hash filled acts a headers heap qs' granted pool gave
        push memory =
      let moves = fix_location-unmoved ngx r unmoved in
      let old = listed r.heap r.headers_out.headers qs in
      let (cursors, walked, visited) =
        walk-elements r.heap fuel r.headers_out.headers.part qs is.linked is.filled enough in
      let (r', made, added) =
        create_out-Added hash filled a headers heap qs' granted pool gave push memory in
      elim (Bool-cases (is_append hv.opcode)) [
        | inl appends ↦ (r', rw (moves, appends, made) refl, added)
        | inr no_append ↦
            let absent : any_match (key_matches ngx hv) (lines r.heap old) ≡ false = ground arith in
            let creates : is_rewrite hv.opcode ≡ false = ground arith in
            let goes_on : ((hv.wildcard || no_create) && length value == 0) ≡ false =
              ground arith in
            (
              r',
              rw
                  (
                    moves,
                    no_append,
                    walked,
                    visited,
                    search_out-idle ngx hv value old r.heap none false absent,
                    after_search,
                    creates,
                    goes_on,
                    moves,
                  )
                  (ap some made),
              added,
            )
      ]
