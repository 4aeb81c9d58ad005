-- ===== src/Output/Idle.antt =====
-- Searches that change nothing, and lines over several addresses.
use ngx_http_headers_control.Common.{
  NotIn, ℕ, ◌≡◌, ◌≢◌, refl, sym, inl, inr, Bool, true, false, not, ◌&&◌, Option, List, [], ◌∷◌,
  ◌++◌, ◌==◌, Bool-cases, arith,
}
use ngx_http_headers_control.Ngx.{Bytes, Ngx}
use ngx_http_headers_control.Request.{Heap}
use ngx_http_headers_control.Output.{OutRule, is_add, key_matches, added, ended, search_out}
use ngx_http_headers_control.Output.Lines.{lines, any_match}

pub lines-append :
    (heap : Heap) (xs ys : List ℕ) → lines heap (xs ++ ys) ≡ lines heap xs ++ lines heap ys
lines-append heap [] ys = refl
lines-append heap (a ∷ xs) ys = elim (Bool-cases ((heap.elt a).hash == 0)) [
  | inl dead ↦ rw (dead, lines-append heap xs ys) refl
  | inr live ↦ rw (live, lines-append heap xs ys) refl
]

pub lines-agree :
    (heap heap' : Heap) (a : ℕ) (addrs : List ℕ)
    → ((b : ℕ) → b ≢ a → heap'.elt b ≡ heap.elt b)
    → NotIn a addrs
    → lines heap' addrs ≡ lines heap addrs
lines-agree heap heap' a [] same out = refl
lines-agree heap heap' a (b ∷ addrs) same out =
    rw (same b (λ e. out.0 (sym e)), lines-agree heap heap' a addrs same out.1) refl

module _ (ngx : Ngx) (hv : OutRule) (value : Bytes) where
  pub search_out-idle :
      (addrs : List ℕ) (heap : Heap) (out : Option ℕ) (matched : Bool)
      → any_match (key_matches ngx hv) (lines heap addrs) ≡ false
      → search_out ngx hv value addrs heap out matched ≡ ended heap out matched
  unfolding search_out
  search_out-idle [] heap out matched absent = refl
  search_out-idle (a ∷ rest) heap out matched absent = elim (Bool-cases ((heap.elt a).hash == 0)) [
    | inl dead ↦
        let below : any_match (key_matches ngx hv) (lines heap rest) ≡ false = ground arith in
        rw (dead, search_out) (search_out-idle rest heap out matched below)
    | inr live ↦
        let below : any_match (key_matches ngx hv) (lines heap rest) ≡ false = ground arith in
        let miss : key_matches ngx hv (heap.elt a).key ≡ false = ground arith in
        rw (live, miss, search_out) (search_out-idle rest heap out matched below)
  ]

  pub search_out-added :
      (addrs : List ℕ) (heap : Heap) (out : Option ℕ) (matched : Bool)
      → is_add hv.opcode ≡ true
      → any_match (key_matches ngx hv) (lines heap addrs) ≡ true
      → search_out ngx hv value addrs heap out matched ≡ added heap
  unfolding search_out
  search_out-added [] heap out matched op present = absurd (ground arith)
  search_out-added (a ∷ rest) heap out matched op present =
      elim (Bool-cases (not ((heap.elt a).hash == 0) && key_matches ngx hv (heap.elt a).key)) [
        | inl hit ↦ rw (hit, op, search_out) refl
        | inr idle ↦
            let below : any_match (key_matches ngx hv) (lines heap rest) ≡ true = ground arith in
            rw (idle, search_out) (search_out-added rest heap out matched op below)
      ]
