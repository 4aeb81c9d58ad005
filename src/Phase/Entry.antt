-- ===== src/Phase/Entry.antt =====
-- The header filter and the rewrite handler, against the chain over names.
use ngx_http_headers_control.Common.{
  ℕ, ◌≡◌, refl, true, false, not, ◌&&◌, Option, none, some, List, [], ◌∷◌, ltb, arith, ◌>>=◌,
}
use ngx_http_headers_control.Ngx.{Ngx, Rc, rc_ok, HasWordLength}
use ngx_http_headers_control.Bitmap.{bitmap_init, set_raw}
use ngx_http_headers_control.Rule.{HeaderVal, MainConf, IsIndexed}
use ngx_http_headers_control.Chain.{fault, locked_before, lock, run_rules}
use ngx_http_headers_control.Chain.Locks.{exact_final, run_names, run_rules-run_names}
use ngx_http_headers_control.Request.{Request, Http}
use ngx_http_headers_control.Output.{OutRule}
use ngx_http_headers_control.Output.Exec.{exec_output_header}
use ngx_http_headers_control.Input.{InRule}
use ngx_http_headers_control.Input.Exec.{exec_input_header}
use ngx_http_headers_control.Phase.{
  Conf, Engine, filter_end, filter_rules, filter, handler_end, handle_rules, handler, postpone,
}

-- With a bitmap that the pool refused, the first exact rule without `-n` that takes effect writes
-- through the null pointer.
run_rules-refused :
    (ngx : Ngx) {H S R : Type 0} (exec : R → HeaderVal H S → Option (Rc × R)) (cnt : ℕ)
    (h : HeaderVal H S) (hs : List (HeaderVal H S)) (r s : R)
    → exact_final h ≡ true
    → exec r h ≡ some (rc_ok, s)
    → run_rules ngx exec (bitmap_init ngx.int_t_len false cnt) [] (h ∷ hs) r ≡ fault
unfolding locked_before lock run_rules bitmap_init set_raw
run_rules-refused ngx exec cnt h hs r s final ran =
    let open_names : (not h.wildcard && false) ≡ false = ground arith in
    rw (open_names, ran, final, run_rules) refl

module _ (ngx : Ngx) (http : Http) (fuel : ℕ) (conf : Conf) (r : Request) where
  -- With an NGX_INT_T_LEN from 1 to 64, rule ids that are positions and a pool that grants the
  -- lock bitmap, the header filter runs the chain that keeps a list of taken names on the response
  -- rules, and after the last rule the next filter.
  pub filter-run_names :
      HasWordLength ngx
      → (rules : List OutRule) (granted : ℕ) (rest : List (Option ℕ))
      → conf.headers_out ≡ some rules
      → IsIndexed rules conf.headers_out_cnt
      → r.pool ≡ some granted ∷ rest
      → filter ngx http fuel conf r
        ≡ filter_end ngx http fuel
            (run_names ngx (exec_output_header ngx http fuel) [] rules (record r { pool = rest }))
  unfolding filter
  filter-run_names wl rules granted rest has ix pool =
      rw
        (
          has,
          pool,
          filter_rules,
          run_rules-run_names ngx wl (exec_output_header ngx http fuel) rules conf.headers_out_cnt
              (record r { pool = rest }) ix,
        )
        refl

  -- With an NGX_INT_T_LEN from 1 to 64, rule ids that are positions, HTTP/1.0 or later, a handler
  -- that has been moved to the end of its phase and a pool that grants the lock bitmap, the
  -- rewrite handler runs the chain that keeps a list of taken names on the request rules, and
  -- after the last rule it declines.
  pub handler-run_names :
      HasWordLength ngx
      → (rules : List InRule) (granted : ℕ) (rest : List (Option ℕ)) (hmcf : MainConf)
      → (engine : Engine) → conf.headers_in ≡ some rules
      → IsIndexed rules conf.headers_in_cnt
      → r.pool ≡ some granted ∷ rest
      → ltb r.http_version 1000 ≡ false
      → hmcf.postponed_to_phase_end ≡ true
      → handler ngx http fuel conf hmcf engine r ≡ (
          handler_end ngx http fuel
            (run_names ngx (exec_input_header ngx http fuel) [] rules (record r { pool = rest }))
          >>= λ (rc, r'). some (rc, r', hmcf, engine))
  unfolding handler postpone
  handler-run_names wl rules granted rest hmcf engine has ix pool version stays =
      rw
        (
          stays,
          has,
          version,
          pool,
          handle_rules,
          run_rules-run_names ngx wl (exec_input_header ngx http fuel) rules conf.headers_in_cnt
              (record r { pool = rest }) ix,
        )
        refl

  -- If the pool refuses the lock bitmap, the header filter writes through a null pointer as soon
  -- as its first rule is exact, has no -n and takes effect.
  pub filter-refused :
      (h : OutRule) (hs : List OutRule) (rest : List (Option ℕ)) (s : Request)
      → conf.headers_out ≡ some (h ∷ hs)
      → r.pool ≡ none ∷ rest
      → exact_final h ≡ true
      → exec_output_header ngx http fuel (record r { pool = rest }) h ≡ some (rc_ok, s)
      → filter ngx http fuel conf r ≡ none
  unfolding filter
  filter-refused h hs rest s has pool final ran =
      rw
        (
          has,
          pool,
          filter_rules,
          run_rules-refused ngx (exec_output_header ngx http fuel) conf.headers_out_cnt h hs
              (record r { pool = rest }) s final ran,
        )
        refl
