-- ===== src/Input/Created.antt =====
-- The header line that `set_header_helper` adds to the list of a request, with `ngx_list_push` by
-- its documentation.
use ngx_http_headers_control.Common.{
  ℕ, ◌<◌, ◌≡◌, ◌≢◌, refl, sym, ap, ◌∙◌, inl, inr, true, false, not, ◌&&◌, ◌||◌, Option, none, some,
  List, [], ◌∷◌, ◌++◌, ◌==◌, Bool-cases, length, arith,
}
use ngx_http_headers_control.Ngx.{Bytes, Ngx, rc_ok}
use ngx_http_headers_control.Request.{
  Elt, Heap, HeaderList, write_elt, in_slot_index, HeadersIn, Request, Http,
}
use ngx_http_headers_control.Request.Whole.{IsList, listed, IsPush, AgreeOn-all, IsList-same}
use ngx_http_headers_control.Request.Store.{write_ne, write_self}
use ngx_http_headers_control.Remove.Parts.{elements-agree}
use ngx_http_headers_control.Output.{is_append, is_rewrite, created}
use ngx_http_headers_control.Output.Lines.{any_match}
use ngx_http_headers_control.Input.Kept.{fields, fields-agree, store-none, search_retry-idle}
use ngx_http_headers_control.Input.{
  InRule, Target, nowhere, slot, variable, Written, set_list, store, in_matches, create_in,
  after_search_in, set_header_helper_in,
}

fields-append :
    (heap : Heap) (xs ys : List ℕ) → fields heap (xs ++ ys) ≡ fields heap xs ++ fields heap ys
fields-append heap [] ys = refl
fields-append heap (a ∷ xs) ys =
    ap (λ t. ((heap.elt a).key, (heap.elt a).value) ∷ t) (fields-append heap xs ys)

-- What the target of the caller points to after the call.
abbrev pub PointsTo : Target → ℕ → Request → Written → Type 0
PointsTo nowhere a r out = out ≡ none
PointsTo (slot s) a r out = r.headers_in.slots s ≡ some a
PointsTo variable a r out = out ≡ some (some a)

-- The request holds the list as the push left it, its fields are the old ones and the new one, and
-- the target points to the new element.
pub record Added (hv : InRule) (value : Bytes) (target : Target) (r : Request) (qs : List ℕ) (a : ℕ)
    (headers : HeaderList) (r' : Request) (out : Written) (qs' : List ℕ) : Type 0 where
  pub pushed : r'.headers_in.headers ≡ headers
  pub list : IsList r'.heap r'.headers_in.headers qs'
  pub line :
      fields r'.heap (listed r'.heap r'.headers_in.headers qs')
      ≡ fields r.heap (listed r.heap r.headers_in.headers qs) ++ (hv.key, value) ∷ []
  pub hashed : (r'.heap.elt a).hash ≡ hv.hash
  pub target_points : PointsTo target a r' out

store-headers :
    (target : Target) (w : Written) (hi : HeadersIn) → (store target w hi).headers ≡ hi.headers
store-headers nowhere w hi = refl
store-headers (slot s) none hi = refl
store-headers (slot s) (some a) hi = refl
store-headers variable w hi = refl

module _ (ngx : Ngx) (http : Http) (r : Request) (hv : InRule) (value : Bytes) (target : Target)
    (qs : List ℕ) (whole : IsList r.heap r.headers_in.headers qs) where
  module _ (a : ℕ) (headers : HeaderList) (heap : Heap) (qs' : List ℕ) (granted : ℕ)
      (pool : List (Option ℕ)) (main : r.parents ≡ []) (sent : (length value == 0) ≡ false)
      (gave : http.list_push r.headers_in.headers r.heap ≡ some (a, headers, heap))
      (push : IsPush r.heap r.headers_in.headers qs a heap headers qs')
      (memory : r.pool ≡ some granted ∷ pool) where
    create_in-Added :
        (r' : Request) × (out : Written) × (create_in ngx http r hv value target none
          ≡ (rc_ok, r', out))
        × Added hv value target r qs a headers r' out qs'
    unfolding create_in
    create_in-Added = by_target target
      where
        element : Elt
        element = created hv value (heap.elt a)

        line : Elt
        line = record ((write_elt heap a element).elt a) { lowcase_key = ngx.strlow hv.key }

        heap' : Heap
        heap' = write_elt (write_elt heap a element) a line

        made : Target → Request
        made t = record r {
          heap = heap';
          pool = pool;
          headers_in = store t (some (some a)) (set_list headers r.headers_in);
        }

        kept : (t : Target) → (made t).headers_in.headers ≡ headers
        kept t = store-headers t (some (some a)) (set_list headers r.headers_in)

        old : List ℕ
        old = listed r.heap r.headers_in.headers qs

        addresses : listed heap' headers qs' ≡ old ++ a ∷ []
        addresses =
            elements-agree heap heap' (headers.part ∷ qs')
              (AgreeOn-all heap heap' (λ q. refl) (headers.part ∷ qs'))
            ∙ push.behind

        others : (b : ℕ) → b ≢ a → heap'.elt b ≡ r.heap.elt b
        others b ne =
            write_ne (write_elt heap a element).elt a b line (λ e. ne (sym e))
            ∙ write_ne heap.elt a b element (λ e. ne (sym e))
            ∙ push.aside b ne

        after : fields heap' (old ++ a ∷ []) ≡ fields r.heap old ++ (hv.key, value) ∷ []
        after =
            fields-append heap' old (a ∷ [])
            ∙ rw
                (
                  fields-agree r.heap heap' a old others push.fresh,
                  write_self (write_elt heap a element).elt a line,
                  write_self heap.elt a element,
                )
                refl

        new_hash : (heap'.elt a).hash ≡ hv.hash
        new_hash =
            rw
              (
                write_self (write_elt heap a element).elt a line,
                write_self heap.elt a element,
                sent,
              )
              refl

        added :
            (t : Target) (out : Written)
            → PointsTo t a (made t) out
            → Added hv value t r qs a headers (made t) out qs'
        added t out points = record {
          pushed = kept t;
          list = rw (kept t) (IsList-same heap heap' (λ q. refl) headers qs' push.list);
          line = rw (kept t, addresses) after;
          hashed = new_hash;
          target_points = points;
        }

        by_target :
            (t : Target)
            → (r' : Request) × (out : Written) × (create_in ngx http r hv value t none
                ≡ (rc_ok, r', out))
              × Added hv value t r qs a headers r' out qs'
        by_target nowhere = (
          made nowhere,
          none,
          rw (create_in, whole.ends, gave, memory, create_in, memory) refl,
          added nowhere none refl,
        )
        by_target (slot s) = (
          made (slot s),
          some (some a),
          rw (create_in, whole.ends, gave, memory, create_in, memory, main) refl,
          added (slot s) (some (some a)) (
              let same : (in_slot_index s == in_slot_index s) ≡ true = ground arith in
              rw same refl),
        )
        by_target variable = (
          made variable,
          some (some a),
          rw (create_in, whole.ends, gave, memory, create_in, memory, main) refl,
          added variable (some (some a)) refl,
        )

    -- In a list of request headers whose parts are linked, filled behind the first and end with
    -- last, and with more fuel than it has elements, in the main request, with memory, a value
    -- that is not empty, and a push that puts a new element behind the others and leaves them
    -- alone: a rule whose name matches no element and that is no rewrite, and every append,
    -- succeeds; the request then holds the list that the push returned, its names and values are
    -- the old ones with those of the rule behind them, the new element has the hash of the rule,
    -- and the slot or the variable that the caller gave points to it.
    pub set_header_helper_in-creates :
        (fuel : ℕ)
        → length (listed r.heap r.headers_in.headers qs) < fuel
        → (is_append hv.opcode
            || (not (is_rewrite hv.opcode)
                && not (
                    any_match
                      (in_matches ngx hv value)
                      (fields r.heap (listed r.heap r.headers_in.headers qs)))))
          ≡ true
        → (r' : Request) × (out : Written) × (set_header_helper_in ngx http fuel r hv value target
            ≡ some (rc_ok, r', out))
          × Added hv value target r qs a headers r' out qs'
    unfolding set_header_helper_in after_search_in
    set_header_helper_in-creates fuel enough acts =
        let (r', out, made, added) = create_in-Added in
        elim (Bool-cases (is_append hv.opcode)) [
          | inl appends ↦ (r', out, rw appends (ap some made), added)
          | inr no_append ↦
              let absent : any_match (in_matches ngx hv value)
                    (fields r.heap (listed r.heap r.headers_in.headers qs))
                  ≡ false =
                ground arith in
              let creates : is_rewrite hv.opcode ≡ false = ground arith in
              let rounds : 0 < fuel = omega (arith, enough) in
              let searched =
                search_retry-idle ngx http r hv value qs whole fuel fuel rounds enough absent in
              (
                r',
                out,
                rw (no_append, searched, sent, creates, store-none target r.headers_in)
                    (ap some made),
                added,
              )
        ]
