-- ===== src/Chain.antt =====
-- The rule loop that `ngx_http_headers_control_filter` and `ngx_http_headers_control_handler`
-- share, word for word, over `conf->headers_out` and `conf->headers_in`. `exec` is the function
-- that executes one rule, `exec_output_header` or `exec_input_header`; `none` is an access through
-- a null pointer or outside an array.
pub mod Locks
pub mod Break
use ngx_http_headers_control.Common.{
  ℕ, Bool, true, false, not, ◌&&◌, ◌||◌, Option, none, some, List, [], ◌∷◌, ◌++◌, if◌then◌else◌,
}
use ngx_http_headers_control.Ngx.{Ngx, Rc, rc_ok, rc_error, rc_declined, same_key}
use ngx_http_headers_control.Bitmap.{Bitmap, bitmap_isset, set_raw}
use ngx_http_headers_control.Rule.{HeaderVal}

-- How the loop ends: by a null pointer, by the NGX_ERROR of a rule, or after the last rule.
pub data Pass (R : Type 0) : Type 0 where
  fault : Pass R
  failed : R → Pass R
  through : R → Pass R

module _ (ngx : Ngx) {H S : Type 0} where
  -- The inner loop: some earlier exact rule of the same name has its bit set.
  unfoldable pub locked_before : Bitmap → List (HeaderVal H S) → HeaderVal H S → Bool
  locked_before locked [] h = false
  locked_before locked (j ∷ js) h =
      (not j.wildcard && (same_key ngx j.key h.key && bitmap_isset ngx.int_t_len locked j.id))
      || locked_before locked js h

  -- The update after a rule that returned NGX_OK.
  unfoldable pub lock : Bitmap → HeaderVal H S → Option Bitmap
  lock locked h =
      if not h.wildcard && not h.next then set_raw ngx.int_t_len locked h.id else some locked

module _ (ngx : Ngx) {H S R : Type 0} (exec : R → HeaderVal H S → Option (Rc × R)) where
  -- `before` holds the rules that the loop has passed.
  unfoldable pub run_rules : Bitmap → (before rules : List (HeaderVal H S)) → R → Pass R
  unfolding locked_before lock
  run_rules locked before [] r = through r
  run_rules locked before (h ∷ hs) r = elim (not h.wildcard && locked_before ngx locked before h) [
    | true ↦ run_rules locked (before ++ h ∷ []) hs r
    | false ↦ elim (exec r h) [
      | none ↦ fault
      | some (rc_error, r') ↦ failed r'
      | some (rc_declined, r') ↦ run_rules locked (before ++ h ∷ []) hs r'
      | some (rc_ok, r') ↦ elim (lock ngx locked h) [
        | none ↦ fault
        | some locked' ↦ run_rules locked' (before ++ h ∷ []) hs r'
      ]
    ]
  ]
