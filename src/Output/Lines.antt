-- ===== src/Output/Lines.antt =====
-- The header lines that a client sees, and what the search of `set_header_helper` makes of them.
use ngx_http_headers_control.Common.{
  NotIn, Distinct, ℕ, ◌≡◌, ◌≢◌, refl, sym, ap, ◌∙◌, inl, inr, Bool, true, false, not, ◌&&◌, ◌||◌,
  Option, some, List, [], ◌∷◌, ◌==◌, Bool-cases, if◌then◌else◌, length, arith,
}
use ngx_http_headers_control.Ngx.{Bytes, Ngx}
use ngx_http_headers_control.Request.{Elt, Heap, write_elt}
use ngx_http_headers_control.Request.Store.{write_ne, write_self}
use ngx_http_headers_control.Output.{OutRule, is_add, key_matches, change, ended, search_out}

-- Name and value of the elements at some addresses; a hash of 0 is a line that is not sent.
abbrev pub lines : Heap → List ℕ → List (Bytes × Bytes)
lines heap [] = []
lines heap (a ∷ rest) =
    if (heap.elt a).hash == 0
    then lines heap rest
    else ((heap.elt a).key, (heap.elt a).value) ∷ lines heap rest

-- The first matching line takes the value, all other matching lines go; with an empty value, or
-- if a line has matched already, all of them go.
abbrev pub settle : (Bytes → Bool) → Bytes → Bool → List (Bytes × Bytes) → List (Bytes × Bytes)
settle match value matched [] = []
settle match value matched ((key, old) ∷ rest) =
    if match key
    then if length value == 0 || matched
      then settle match value true rest
      else (key, value) ∷ settle match value true rest
    else (key, old) ∷ settle match value matched rest

abbrev pub any_match : (Bytes → Bool) → List (Bytes × Bytes) → Bool
any_match match [] = false
any_match match ((key, old) ∷ rest) = match key || any_match match rest

pub lines-write_elt :
    (heap : Heap) (a : ℕ) (e : Elt) (rest : List ℕ)
    → NotIn a rest
    → lines (write_elt heap a e) rest ≡ lines heap rest
lines-write_elt heap a e [] out = refl
lines-write_elt heap a e (b ∷ rest) out =
    rw (write_ne heap.elt a b e out.0, lines-write_elt heap a e rest out.1)

-- The search ran to its end: the store, the last match, and the lines it leaves.
pub record Settled (ngx : Ngx) (hv : OutRule) (value : Bytes) (addrs : List ℕ) (heap : Heap)
    (out : Option ℕ) (matched : Bool) : Type 0 where
  pub heap' : Heap
  pub out' : Option ℕ
  pub ran :
      search_out ngx hv value addrs heap out matched
      ≡ ended heap' out' (matched || any_match (key_matches ngx hv) (lines heap addrs))
  pub others : (b : ℕ) → NotIn b addrs → heap'.elt b ≡ heap.elt b
  pub result : lines heap' addrs ≡ settle (key_matches ngx hv) value matched (lines heap addrs)

module _ (ngx : Ngx) (hv : OutRule) (value : Bytes) where
  -- An element that is not sent, or does not match, is passed over.
  Settled-pass :
      (a : ℕ) (rest : List ℕ) (heap : Heap) (out : Option ℕ) (matched : Bool)
      → NotIn a rest
      → (not ((heap.elt a).hash == 0) && key_matches ngx hv (heap.elt a).key) ≡ false
      → Settled ngx hv value rest heap out matched
      → Settled ngx hv value (a ∷ rest) heap out matched
  unfolding search_out
  Settled-pass a rest heap out matched fresh idle s = elim (Bool-cases ((heap.elt a).hash == 0)) [
    | inl dead ↦ record {
      heap' = s.heap';
      out' = s.out';
      ran = rw (idle, dead, search_out) s.ran;
      others = λ b n. s.others b n.1;
      result = rw (s.others a fresh, dead) s.result;
    }
    | inr live ↦
        let miss : key_matches ngx hv (heap.elt a).key ≡ false = ground arith in
        record {
          heap' = s.heap';
          out' = s.out';
          ran = rw (idle, live, miss, search_out) s.ran;
          others = λ b n. s.others b n.1;
          result = rw (s.others a fresh, live, miss, s.result) refl;
        }
  ]

  -- A matching element is changed and the search goes on behind it.
  Settled-hit :
      (a : ℕ) (rest : List ℕ) (heap : Heap) (out : Option ℕ) (matched : Bool)
      → is_add hv.opcode ≡ false
      → hv.hash ≢ 0
      → NotIn a rest
      → ((heap.elt a).hash == 0) ≡ false
      → key_matches ngx hv (heap.elt a).key ≡ true
      → Settled ngx hv value rest
          (write_elt heap a (change ngx hv value matched (heap.elt a)))
          (some a)
          true
      → Settled ngx hv value (a ∷ rest) heap out matched
  unfolding search_out
  Settled-hit a rest heap out matched op hash fresh live hit s = record {
    heap' = s.heap';
    out' = s.out';
    ran =
        let all : (matched || true) ≡ true = ground arith in
        rw (live, hit, op, search_out, all) s.ran;
    others = λ b n. s.others b n.1 ∙ write_ne heap.elt a b _ (λ e. n.0 (sym e));
    result = changed;
  }
    where
      e : Elt
      e = change ngx hv value matched (heap.elt a)

      at_a : s.heap'.elt a ≡ e
      at_a = s.others a fresh ∙ write_self heap.elt a e

      behind : lines s.heap' rest ≡ settle (key_matches ngx hv) value true (lines heap rest)
      behind =
          s.result
          ∙ ap (settle (key_matches ngx hv) value true) (lines-write_elt heap a e rest fresh)

      changed :
          lines s.heap' (a ∷ rest)
          ≡ settle (key_matches ngx hv) value matched (lines heap (a ∷ rest))
      changed = elim (Bool-cases (length value == 0 || matched)) [
        | inl clears ↦ rw (at_a, live, hit, clears) behind
        | inr keeps ↦
            let sent : (hv.hash == 0) ≡ false = ground arith in
            rw (at_a, live, hit, keeps, sent, behind) refl
      ]

  pub search_out-Settled :
      (addrs : List ℕ) (heap : Heap) (out : Option ℕ) (matched : Bool)
      → is_add hv.opcode ≡ false
      → hv.hash ≢ 0
      → Distinct addrs
      → Settled ngx hv value addrs heap out matched
  unfolding search_out
  search_out-Settled [] heap out matched op hash d = record {
    heap' = heap;
    out' = out;
    ran = ground arith;
    others = λ b n. refl;
    result = refl;
  }
  search_out-Settled (a ∷ rest) heap out matched op hash d =
      elim (Bool-cases (not ((heap.elt a).hash == 0) && key_matches ngx hv (heap.elt a).key)) [
        | inl hit ↦ Settled-hit a rest heap out matched op hash d.0 (ground arith) (ground arith) (
            search_out-Settled rest (write_elt heap a (change ngx hv value matched (heap.elt a)))
              (some a) true op hash d.1)
        | inr idle ↦
            Settled-pass a rest heap out matched d.0 idle
              (search_out-Settled rest heap out matched op hash d.1)
      ]
