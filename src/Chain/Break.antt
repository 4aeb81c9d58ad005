-- ===== src/Chain/Break.antt =====
-- A rule that takes its name silences the later rules of that name.
use ngx_http_headers_control.Common.{
  ℕ, ◌≡◌, refl, ◌∙◌, inl, inr, true, false, not, ◌&&◌, Option, none, some, List, [], ◌∷◌, ◌++◌,
  arith, if◌then◌else◌, Bool-cases,
}
use ngx_http_headers_control.Ngx.{
  Bytes, Ngx, Rc, rc_ok, rc_error, rc_declined, HasWordLength, same_key,
}
use ngx_http_headers_control.Bitmap.{bitmap_init}
use ngx_http_headers_control.Rule.{HeaderVal, IsIndexed}
use ngx_http_headers_control.Chain.{run_rules}
use ngx_http_headers_control.Chain.Locks.{taken, exact_final, run_names, run_rules-run_names}

module _ (ngx : Ngx) (wl : HasWordLength ngx) {H S R : Type 0}
    (exec : R → HeaderVal H S → Option (Rc × R)) where
  -- A rule whose name is taken changes nothing, wherever it stands.
  run_names-skip :
      (names : List Bytes) (xs ys : List (HeaderVal H S)) (h : HeaderVal H S) (r : R)
      → h.wildcard ≡ false
      → taken ngx names h.key ≡ true
      → run_names ngx exec names (xs ++ h ∷ ys) r ≡ run_names ngx exec names (xs ++ ys) r
  unfolding run_names
  run_names-skip names [] ys h r exact t =
      let hidden : (not h.wildcard && taken ngx names h.key) ≡ true = ground arith in
      rw (hidden, run_names)
  run_names-skip names (x ∷ xs) ys h r exact t =
      elim (Bool-cases (not x.wildcard && taken ngx names x.key)) [
        | inl skip ↦ rw (skip, run_names) (run_names-skip names xs ys h r exact t)
        | inr run ↦ executed (exec r x) refl run (λ ns s. run_names-skip ns xs ys h s exact)
      ]
    where
      executed :
          (o : Option (Rc × R))
          → exec r x ≡ o
          → (not x.wildcard && taken ngx names x.key) ≡ false
          → ((ns : List Bytes) (s : R)
              → taken ngx ns h.key ≡ true
              → run_names ngx exec ns (xs ++ h ∷ ys) s ≡ run_names ngx exec ns (xs ++ ys) s)
          → run_names ngx exec names (x ∷ (xs ++ h ∷ ys)) r
            ≡ run_names ngx exec names (x ∷ (xs ++ ys)) r
      executed none e run ih = rw (run, e, run_names)
      executed (some (rc_error, s)) e run ih = rw (run, e, run_names)
      executed (some (rc_declined, s)) e run ih = rw (run, e, run_names) (ih names s t)
      executed (some (rc_ok, s)) e run ih =
          rw (run, e, run_names)
            (ih (if exact_final x then x.key ∷ names else names) s (ground arith))

  -- With an NGX_INT_T_LEN from 1 to 64, a granted bitmap and ids that are positions, once an exact
  -- rule without -n has taken effect at the head, a later exact rule of the same name is as if it
  -- were not there, whatever rules stand between and behind.
  pub run_rules-break :
      (h later : HeaderVal H S) (xs ys : List (HeaderVal H S)) (cnt : ℕ) (r s : R)
      → IsIndexed (h ∷ (xs ++ later ∷ ys)) cnt
      → exec r h ≡ some (rc_ok, s)
      → exact_final h ≡ true
      → later.wildcard ≡ false
      → same_key ngx h.key later.key ≡ true
      → run_rules ngx exec (bitmap_init ngx.int_t_len true cnt) [] (h ∷ (xs ++ later ∷ ys)) r
        ≡ run_names ngx exec (h.key ∷ []) (xs ++ ys) s
  unfolding run_names
  run_rules-break h later xs ys cnt r s ix ran f exact same =
      run_rules-run_names ngx wl exec (h ∷ (xs ++ later ∷ ys)) cnt r ix
      ∙ rw (open_names, ran, f, run_names)
          (run_names-skip (h.key ∷ []) xs ys later s exact (ground arith))
    where
      open_names : (not h.wildcard && taken ngx [] h.key) ≡ false
      open_names = ground arith
