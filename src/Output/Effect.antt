-- ===== src/Output/Effect.antt =====
-- What `set_header_helper` does to the header lines of a response that it finds.
use ngx_http_headers_control.Common.{
  Distinct, ℕ, ◌≡◌, ◌≢◌, refl, inl, inr, Bool, true, false, ◌||◌, Option, none, some, List,
  Bool-cases, map, arith,
}
use ngx_http_headers_control.Ngx.{Bytes, Ngx, rc_ok}
use ngx_http_headers_control.Rule.{Opcode, opcode_append}
use ngx_http_headers_control.Request.{Request, Http, OutSlot, out_location, Cursor, at_cursor, walk}
use ngx_http_headers_control.Output.{
  OutRule, is_add, is_append, is_rewrite, key_matches, set_header_helper, after_search, set_slot,
  fix_location,
}
use ngx_http_headers_control.Output.Idle.{search_out-added}
use ngx_http_headers_control.Output.Lines.{lines, settle, any_match, search_out-Settled}

add_no_append : (opcode : Opcode) → is_add opcode ≡ true → is_append opcode ≡ false
add_no_append opcode_append e = absurd (ground arith)
add_no_append _ e = refl

pub fix_location-unmoved :
    (ngx : Ngx) (r : Request) → r.headers_out.slots out_location ≡ none → fix_location ngx r ≡ r
unfolding fix_location
fix_location-unmoved ngx r e = rw (e, fix_location) refl

-- The addresses of the elements that the search visits.
abbrev pub addresses : Request → List Cursor → List ℕ
addresses r cursors = map (at_cursor r.heap) cursors

module _ (ngx : Ngx) (http : Http) (fuel : ℕ) (r : Request) (hv : OutRule) (value : Bytes)
    (slot : Option OutSlot) (no_create : Bool) (cursors : List Cursor) where
  -- With no Location in its slot, enough fuel for the walk, elements that stand once each and a
  -- hash that is not 0, a rule other than add and append whose name matches some line, or a
  -- rewrite, succeeds: the first matching line takes the value, the other matching lines go, and
  -- with an empty value all of them go.
  pub set_header_helper-settle :
      r.headers_out.slots out_location ≡ none
      → walk fuel r.heap r.headers_out.headers.part 0 ≡ some cursors
      → Distinct (addresses r cursors)
      → is_append hv.opcode ≡ false
      → is_add hv.opcode ≡ false
      → hv.hash ≢ 0
      → (any_match (key_matches ngx hv) (lines r.heap (addresses r cursors))
          || is_rewrite hv.opcode)
        ≡ true
      → (r' : Request) × (set_header_helper ngx http fuel r hv value slot no_create
          ≡ some (rc_ok, r'))
        × (lines r'.heap (addresses r cursors)
            ≡ settle (key_matches ngx hv) value false (lines r.heap (addresses r cursors)))
  unfolding set_header_helper
  set_header_helper-settle unmoved walked distinct no_append no_add hash acts =
      let moves = fix_location-unmoved ngx r unmoved in
      let s =
        search_out-Settled ngx hv value (addresses r cursors) r.heap none false no_add hash
          distinct in
      elim (Bool-cases (any_match (key_matches ngx hv) (lines r.heap (addresses r cursors)))) [
        | inl hit ↦ (
          record r { heap = s.heap'; headers_out = set_slot slot s.out' r.headers_out },
          rw (moves, no_append, walked, s.ran, hit, after_search, moves) refl,
          s.result,
        )
        | inr miss ↦
            let rewrites : is_rewrite hv.opcode ≡ true = ground arith in
            (
              record r { heap = s.heap' },
              rw (moves, no_append, walked, s.ran, miss, rewrites, after_search, moves) refl,
              s.result,
            )
      ]

  -- With no Location in its slot and enough fuel for the walk, an add whose name matches some line
  -- succeeds and changes nothing.
  pub set_header_helper-add :
      r.headers_out.slots out_location ≡ none
      → walk fuel r.heap r.headers_out.headers.part 0 ≡ some cursors
      → is_add hv.opcode ≡ true
      → any_match (key_matches ngx hv) (lines r.heap (addresses r cursors)) ≡ true
      → set_header_helper ngx http fuel r hv value slot no_create ≡ some (rc_ok, r)
  unfolding set_header_helper
  set_header_helper-add unmoved walked op present =
      let moves = fix_location-unmoved ngx r unmoved in
      let no_append = add_no_append hv.opcode op in
      rw
        (
          moves,
          no_append,
          walked,
          search_out-added ngx hv value (addresses r cursors) r.heap none false op present,
          after_search,
          moves,
        )
        refl
