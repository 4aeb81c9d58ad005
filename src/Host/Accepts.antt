-- ===== src/Host/Accepts.antt =====
-- `validate_host` is the grammar: it accepts the hosts of the grammar and no others, and leaves
-- the name in lower case, without the port and without one dot at its end.
use native.Mathlib.Nat.{zero-add}
use mathlib.Core.List.{map-append}
use ngx_http_headers_control.Common.{
  ℕ, suc, ◌+◌, ◌^◌, ◌≤◌, ◌<◌, ◌≡◌, inl, inr, refl, sym, ap, ◌∙◌, Bool, true, false, ◌&&◌, none,
  some, [], ◌∷◌, ◌++◌, map, arith, ◌==◌, if◌then◌else◌, Bool-cases, ==_iff, length, take,
  length-append, append_assoc, take-append_length,
}
use ngx_http_headers_control.Ngx.{Bytes, Ngx, Lowers, to_lower}
use ngx_http_headers_control.Host.{
  sw_host, sw_host_ip_literal, Scan, pred_size, in_literal, scan, valid, declined, finish, initial,
  conclude, validate_host,
}
use ngx_http_headers_control.Host.Grammar.{
  literal_byte, well_formed, before_byte, from_byte, strip_dot, nonempty, named_host, literal_host,
  host_grammar,
}
use ngx_http_headers_control.Host.Literal.{
  literal_end, literal_end_open, literal_end-Closed, Closed, scan_literal, closing,
}
use ngx_http_headers_control.Host.Name.{at_state, name_end, scan_name}
use ngx_http_headers_control.Host.Ends.{
  ends_dot, name_end-in_literal, name_end-host_len, name_end-alloc, name_end-dot_pos,
  before_byte-from_byte, stripped, length-strip_dot, take-strip_dot, map-to_lower_id,
  map-to_lower_plain, from_byte-head,
}

module _ (ngx : Ngx) where
  -- The end of the function, once it is known which bytes are kept.
  finish_kept :
      (h kept rest : Bytes) (s : Scan)
      → in_literal s.state ≡ false
      → (if s.dot_pos == pred_size s.host_len then pred_size s.host_len else s.host_len)
        ≡ length kept
      → take (length kept) h ≡ kept
      → finish ngx true h s ≡ (
          if length kept == 0
          then declined
          else if s.alloc
          then valid (ngx.strlow kept)
          else valid kept)
  unfolding finish
  finish_kept h kept rest s out len tk = rw (out, len, tk)

ends_dot-length : (name : Bytes) → ends_dot false name ≡ true → 0 < length name
ends_dot-length [] e = absurd (ground arith)
ends_dot-length (c ∷ cs) e = omega arith

name_len :
    (name : Bytes)
    → length name + 1 < 2 ^ 64
    → (if ends_dot false name then pred_size (length name) else length name) ≡ stripped name
name_len name fits = ground (arith, ends_dot-length name)

module _ (ngx : Ngx) (lo : Lowers ngx) where
  finish_name :
      (h : Bytes) (alloc : Bool)
      → length h + 1 < 2 ^ 64
      → let name = before_byte b':' h in
        finish ngx true h (name_end 0 (length h) (length h) alloc h)
        ≡ (if nonempty (strip_dot name) then valid (map to_lower (strip_dot name)) else declined)
  finish_name h alloc fits =
      finish_kept ngx h kept [] end (name_end-in_literal N 0 N alloc h) len_kept whole
      ∙ ground (arith, name_end-alloc N 0 N alloc h, lo.lowers kept, map-to_lower_id name)
    where
      N : ℕ
      N = length h

      name : Bytes
      name = before_byte b':' h

      kept : Bytes
      kept = strip_dot name

      end : Scan
      end = name_end 0 N N alloc h

      split : name ++ from_byte b':' h ≡ h
      split = before_byte-from_byte b':' h

      shorter : length name ≤ N
      shorter = omega (arith, length-append name (from_byte b':' h), ap length split)

      whole : take (length kept) h ≡ kept
      whole = rw split at (take-strip_dot name (from_byte b':' h))

      len : end.host_len ≡ length name
      len = name_end-host_len N 0 N alloc h (omega arith) ∙ omega arith

      dot : (end.dot_pos == pred_size (length name)) ≡ ends_dot false name
      dot = rw zero-add at (
          name_end-dot_pos N 0 N alloc false h
            (record { adjacent = ground arith; earlier = inr refl; fits = fits }) (omega arith))

      len_kept :
          (if end.dot_pos == pred_size end.host_len then pred_size end.host_len else end.host_len)
          ≡ length kept
      len_kept =
          rw (len, dot) (name_len name (omega (arith, shorter)) ∙ sym (length-strip_dot name))

  finish_literal_open :
      (h t : Bytes) (d l : ℕ) (alloc : Bool)
      → from_byte b']' t ≡ []
      → finish ngx true h (literal_end 1 d l alloc t) ≡ declined
  unfolding finish
  finish_literal_open h t d l alloc e = rw (literal_end_open l 1 d alloc t e)

  finish_literal :
      (t : Bytes) (alloc : Bool) {c : ℕ} {rest : Bytes}
      → let h : Bytes = b'[' ∷ t in
        length h + 1 < 2 ^ 64
        → from_byte b']' t ≡ c ∷ rest
        → finish ngx true h (literal_end 1 (length h) (length h) alloc t)
          ≡ valid (b'[' ∷ (map to_lower (before_byte b']' t) ++ b']' ∷ []))
  finish_literal t alloc {c} {rest} fits e =
      finish_kept ngx (b'[' ∷ t) kept [] end closed.out len_kept whole
      ∙ ground (arith, closed.alloc, lo.lowers kept, lower, map-to_lower_plain address)
    where
      address : Bytes
      address = before_byte b']' t

      kept : Bytes
      kept = b'[' ∷ (address ++ b']' ∷ [])

      end : Scan
      end = literal_end 1 (suc (length t)) (suc (length t)) alloc t

      closed : Closed (suc (length t)) 1 alloc address end
      closed =
          literal_end-Closed (suc (length t)) 1 (suc (length t)) alloc false t
            (record { adjacent = ground arith; earlier = inr refl; fits = fits }) (omega arith) e

      split : kept ++ rest ≡ b'[' ∷ t
      split = ap (◌∷◌ b'[') (
          append_assoc address (b']' ∷ []) rest
          ∙ ap (λ x. address ++ x ∷ rest) (sym (from_byte-head b']' t e))
          ∙ ap (λ x. address ++ x) (sym e)
          ∙ before_byte-from_byte b']' t)

      whole : take (length kept) (b'[' ∷ t) ≡ kept
      whole = ap (take (length kept)) (sym split) ∙ take-append_length kept rest

      room : length address + 1 ≤ length t
      room = omega (
        arith,
        length-append address (from_byte b']' t),
        ap length (before_byte-from_byte b']' t),
        ap length e,
      )

      at_end : pred_size (1 + length address + 1) ≡ 1 + length address
      at_end = omega (arith, room)

      len_kept :
          (if end.dot_pos == pred_size end.host_len then pred_size end.host_len else end.host_len)
          ≡ length kept
      len_kept =
          rw (closed.len, at_end, closed.undotted)
            (omega (arith, length-append address (b']' ∷ [])))

      lower : map to_lower kept ≡ b'[' ∷ (map to_lower address ++ b']' ∷ [])
      lower = ap (◌∷◌ b'[') (map-append to_lower address (b']' ∷ []))

  conclude-if :
      (host : Bytes) (b : Bool) (s : Scan)
      → conclude ngx true host (if b then some s else none)
        ≡ (if b then finish ngx true host s else declined)
  unfolding conclude
  conclude-if host true s = refl
  conclude-if host false s = refl

  named_lem :
      (h : Bytes) (alloc : Bool)
      → length h + 1 < 2 ^ 64
      → conclude ngx true h (scan 0 (at_state sw_host (length h) (length h) 0 alloc) h)
        ≡ named_host h
  named_lem h alloc fits =
      rw
        (
          scan_name (length h) 0 (length h) (length h) alloc false h
              (record { adjacent = ground arith; earlier = inr refl; fits = fits }) (omega arith),
          conclude-if,
          finish_name h alloc fits,
        )
        (ground arith)

  literal_lem :
      (t : Bytes) (alloc : Bool)
      → let h : Bytes = b'[' ∷ t in
        length h + 1 < 2 ^ 64
        → conclude ngx true h (scan 1 (at_state sw_host_ip_literal (length h) (length h) 0 alloc) t)
          ≡ literal_host t
  literal_lem t alloc fits =
      rw
        (
          scan_literal (suc (length t)) 1 (suc (length t)) (suc (length t)) alloc false t
              (record { adjacent = ground arith; earlier = inr refl; fits = fits }) (omega arith),
          conclude-if,
        )
        (by_end (from_byte b']' t) refl)
    where
      by_end :
          (end : Bytes)
          → from_byte b']' t ≡ end
          → (if well_formed literal_byte false (before_byte b']' t) && closing (from_byte b']' t)
              then finish ngx true
                  (b'[' ∷ t)
                  (literal_end 1 (suc (length t)) (suc (length t)) alloc t)
              else declined)
            ≡ literal_host t
      by_end [] e =
          rw (e, finish_literal_open (b'[' ∷ t) t (suc (length t)) (suc (length t)) alloc e)
            (ground arith)
      by_end (c ∷ rest) e = rw (finish_literal t alloc fits e, e) (ground arith)

start_name :
    (c : ℕ) (t : Bytes) (alloc : Bool)
    → (c == b'[') ≡ false
    → scan 0 (initial (c ∷ t) alloc) (c ∷ t)
      ≡ scan 0 (at_state sw_host (length (c ∷ t)) (length (c ∷ t)) 0 alloc) (c ∷ t)
unfolding scan
start_name c t alloc e = rw (e, scan)

start_literal :
    (c : ℕ) (t : Bytes) (alloc : Bool)
    → (c == b'[') ≡ true
    → scan 0 (initial (c ∷ t) alloc) (c ∷ t)
      ≡ scan 1 (at_state sw_host_ip_literal (length (c ∷ t)) (length (c ∷ t)) 0 alloc) t
unfolding scan
start_literal c t alloc e = rw (e, scan)

validate_host-conclude :
    (ngx : Ngx) (host : Bytes) (alloc : Bool)
    → validate_host ngx true host alloc ≡ conclude ngx true host (scan 0 (initial host alloc) host)
unfolding validate_host
validate_host-conclude ngx host alloc = refl

-- With memory granted and ngx_strlow by its documentation, the byte machine of validate_host
-- gives, for every value shorter than 2^64 - 1 bytes, the verdict and the host of host_grammar: a
-- name or a bracketed literal, without two dots in a row, a port of digits up to 65535, one last
-- dot dropped, and lower case.
pub validate_host-host_grammar :
    (ngx : Ngx) (lo : Lowers ngx) (host : Bytes) (alloc : Bool)
    → length host + 1 < 2 ^ 64
    → validate_host ngx true host alloc ≡ host_grammar host
validate_host-host_grammar ngx lo [] alloc fits = unfold validate_host in refl
validate_host-host_grammar ngx lo (c ∷ t) alloc fits = elim (Bool-cases (c == b'[')) [
  | inl bracket ↦
      rw
        (
          validate_host-conclude,
          start_literal c t alloc bracket,
          bracket,
          (==_iff c b'[').0 bracket,
        )
        (literal_lem ngx lo t alloc fits)
  | inr other ↦
      rw (validate_host-conclude, start_name c t alloc other, other)
        (named_lem ngx lo (c ∷ t) alloc fits)
]
