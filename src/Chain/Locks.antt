-- ===== src/Chain/Locks.antt =====
-- The lock bitmap is the set of names that are taken: the loop refines one that keeps the names.
use ngx_http_headers_control.Common.{
  ℕ, suc, ◌+◌, ◌≤◌, ◌<◌, ◌≡◌, refl, ◌∙◌, inl, inr, Bool, true, false, not, ◌&&◌, ◌||◌, Option, none,
  some, List, [], ◌∷◌, ◌++◌, arith, ltb, if◌then◌else◌, Bool-cases, length,
}
use ngx_http_headers_control.Ngx.{
  Bytes, Ngx, Rc, rc_ok, rc_error, rc_declined, HasWordLength, same_key,
}
use ngx_http_headers_control.Bitmap.{Bitmap, bitmap_init, bitmap_set, bitmap_isset}
use ngx_http_headers_control.Bitmap.Laws.{
  HasRoom, in_range, in_range-init, bitmap_init-HasRoom, bitmap_isset-init, bitmap_isset-set,
  bitmap_set-HasRoom, in_range-set, set_raw-bitmap_set,
}
use ngx_http_headers_control.Rule.{HeaderVal, IndexedFrom, IsIndexed}
use ngx_http_headers_control.Chain.{Pass, fault, failed, through, locked_before, run_rules}

-- Some name of the list is the key, up to case.
abbrev pub taken : Ngx → List Bytes → Bytes → Bool
taken ngx [] key = false
taken ngx (n ∷ names) key = same_key ngx n key || taken ngx names key

abbrev pub exact_final : {H S : Type 0} → HeaderVal H S → Bool
exact_final h = not h.wildcard && not h.next

module _ (ngx : Ngx) {H S R : Type 0} (exec : R → HeaderVal H S → Option (Rc × R)) where
  -- The documented chain: an exact rule runs unless its name is taken; an exact rule without `-n`
  -- that took effect takes its name; wildcard rules always run and take nothing.
  unfoldable pub run_names : (names : List Bytes) → List (HeaderVal H S) → R → Pass R
  run_names names [] r = through r
  run_names names (h ∷ hs) r = elim (not h.wildcard && taken ngx names h.key) [
    | true ↦ run_names names hs r
    | false ↦ elim (exec r h) [
      | none ↦ fault
      | some (rc_error, r') ↦ failed r'
      | some (rc_declined, r') ↦ run_names names hs r'
      | some (rc_ok, r') ↦ run_names (if exact_final h then h.key ∷ names else names) hs r'
    ]
  ]

module _ (ngx : Ngx) {H S : Type 0} where
  abbrev IdsBelow : ℕ → List (HeaderVal H S) → Type 0
  IdsBelow n [] = Unit
  IdsBelow n (j ∷ js) = (j.id < n) × IdsBelow n js

  IdsBelow-mono : (n : ℕ) (js : List (HeaderVal H S)) → IdsBelow n js → IdsBelow (suc n) js
  IdsBelow-mono n [] b = tt
  IdsBelow-mono n (j ∷ js) b = (omega (arith, b.0), IdsBelow-mono n js b.1)

  IdsBelow-append :
      (n : ℕ) (js : List (HeaderVal H S)) (h : HeaderVal H S)
      → IdsBelow n js
      → h.id < n
      → IdsBelow n (js ++ h ∷ [])
  IdsBelow-append n [] h b lt = (lt, tt)
  IdsBelow-append n (j ∷ js) h b lt = (b.0, IdsBelow-append n js h b.1 lt)

  locked_before-append :
      (locked : Bitmap) (js : List (HeaderVal H S)) (h x : HeaderVal H S)
      → locked_before ngx locked (js ++ h ∷ []) x
        ≡ locked_before ngx locked js x
          || (not h.wildcard
              && (same_key ngx h.key x.key && bitmap_isset ngx.int_t_len locked h.id))
  unfolding locked_before
  locked_before-append locked [] h x = ground arith
  locked_before-append locked (j ∷ js) h x = ground (arith, locked_before-append locked js h x)

  -- What the loop knows after `n` rules of `cnt`: the bitmap says of every rule ahead whether its
  -- name is taken.
  record Agrees (cnt n : ℕ) (locked : Bitmap) (before : List (HeaderVal H S)) (names : List Bytes)
      : Type 0 where
    room : HasRoom ngx.int_t_len locked
    whole : (b : ℕ) → in_range locked b ≡ ltb b cnt
    clear : (b : ℕ) → n ≤ b → bitmap_isset ngx.int_t_len locked b ≡ false
    ids : IdsBelow n before
    same : (x : HeaderVal H S) → locked_before ngx locked before x ≡ taken ngx names x.key

  module _ (wl : HasWordLength ngx) where
    -- A write at an id that is not among the earlier rules changes none of their bits.
    locked_before-set :
        (locked : Bitmap) (n : ℕ) (js : List (HeaderVal H S)) (x : HeaderVal H S)
        → HasRoom ngx.int_t_len locked
        → IdsBelow n js
        → locked_before ngx (bitmap_set ngx.int_t_len locked n) js x ≡ locked_before ngx locked js x
    unfolding locked_before
    locked_before-set locked n [] x room b = refl
    locked_before-set locked n (j ∷ js) x room b =
        rw
          (
            bitmap_isset-set ngx.int_t_len wl.positive wl.in_word locked n j.id room,
            locked_before-set locked n js x room b.1,
          )
          (ground (arith, b.0))

    module _ {cnt n : ℕ} {locked : Bitmap} {before : List (HeaderVal H S)} {names : List Bytes}
        (h : HeaderVal H S) (a : Agrees cnt n locked before names) (at : h.id ≡ n)
        (lt : n < cnt) where
      -- A rule that takes no name: skipped, declined, with `-n`, or a wildcard.
      Agrees-pass : Agrees cnt (suc n) locked (before ++ h ∷ []) names
      Agrees-pass = record {
        room = a.room;
        whole = a.whole;
        clear = λ b le. a.clear b (omega arith);
        ids = IdsBelow-append (suc n) before h (IdsBelow-mono n before a.ids) (omega arith);
        same = λ x.
            locked_before-append locked before h x
            ∙ rw (at, a.clear n (omega arith), a.same x) (ground arith);
      }

      -- A rule that takes its name.
      Agrees-lock :
          h.wildcard ≡ false
          → Agrees cnt
              (suc n)
              (bitmap_set ngx.int_t_len locked n)
              (before ++ h ∷ [])
              (h.key ∷ names)
      Agrees-lock exact = record {
        room = bitmap_set-HasRoom ngx.int_t_len wl.positive wl.in_word locked n a.room;
        whole = λ b. in_range-set ngx.int_t_len wl.positive wl.in_word locked n b ∙ a.whole b;
        clear = λ b le.
            bitmap_isset-set ngx.int_t_len wl.positive wl.in_word locked n b a.room
            ∙ ground (arith, a.clear b);
        ids = IdsBelow-append (suc n) before h (IdsBelow-mono n before a.ids) (omega arith);
        same = λ x.
            locked_before-append (bitmap_set ngx.int_t_len locked n) before h x
            ∙ rw
                (
                  exact,
                  at,
                  bitmap_isset-set ngx.int_t_len wl.positive wl.in_word locked n n a.room,
                  locked_before-set locked n before x a.room a.ids,
                  a.whole n,
                  a.same x,
                )
                (ground arith);
      }

module _ (ngx : Ngx) (wl : HasWordLength ngx) {H S R : Type 0}
    (exec : R → HeaderVal H S → Option (Rc × R)) where
  -- One rule, given that the loops agree on the rules behind it.
  module _ (locked : Bitmap) (before : List (HeaderVal H S)) (names : List Bytes)
      (h : HeaderVal H S) (hs : List (HeaderVal H S)) where
    run_rules-cons :
        (r : R)
        → HasRoom ngx.int_t_len locked
        → locked_before ngx locked before h ≡ taken ngx names h.key
        → in_range locked h.id ≡ true
        → ((s : R)
            → run_rules ngx exec locked (before ++ h ∷ []) hs s ≡ run_names ngx exec names hs s)
        → (exact_final h ≡ true
            → (s : R)
            → run_rules ngx exec (bitmap_set ngx.int_t_len locked h.id) (before ++ h ∷ []) hs s
              ≡ run_names ngx exec (h.key ∷ names) hs s)
        → run_rules ngx exec locked before (h ∷ hs) r ≡ run_names ngx exec names (h ∷ hs) r
    unfolding run_rules run_names
    run_rules-cons r room same inside pass locks =
        elim (Bool-cases (not h.wildcard && taken ngx names h.key)) [
          | inl skip ↦ rw (same, skip, run_rules, run_names) (pass r)
          | inr run ↦ executed (exec r h) refl run
        ]
      where
        executed :
            (o : Option (Rc × R))
            → exec r h ≡ o
            → (not h.wildcard && taken ngx names h.key) ≡ false
            → run_rules ngx exec locked before (h ∷ hs) r ≡ run_names ngx exec names (h ∷ hs) r
        executed none e run = rw (same, run, e, run_rules, run_names)
        executed (some (rc_error, s)) e run = rw (same, run, e, run_rules, run_names)
        executed (some (rc_declined, s)) e run = rw (same, run, e, run_rules, run_names) (pass s)
        executed (some (rc_ok, s)) e run = elim (Bool-cases (exact_final h)) [
          | inl f ↦
              rw
                (
                  same,
                  run,
                  e,
                  run_rules,
                  run_names,
                  f,
                  set_raw-bitmap_set ngx.int_t_len wl.positive wl.in_word locked h.id room inside,
                )
                (locks f s)
          | inr f ↦ rw (same, run, e, run_rules, run_names, f) (pass s)
        ]

  run_rules-run_names_from :
      (cnt n : ℕ) (locked : Bitmap) (before : List (HeaderVal H S)) (names : List Bytes)
      (hs : List (HeaderVal H S)) (r : R)
      → Agrees ngx cnt n locked before names
      → IndexedFrom n hs
      → n + length hs ≤ cnt
      → run_rules ngx exec locked before hs r ≡ run_names ngx exec names hs r
  run_rules-run_names_from cnt n locked before names [] r a ix le =
      unfold run_rules run_names in refl
  run_rules-run_names_from cnt n locked before names (h ∷ hs) r a ix le =
      run_rules-cons locked before names h hs r a.room (a.same h)
        (rw (ix.0, a.whole n) (ground arith))
        (λ s.
          run_rules-run_names_from cnt (suc n) locked (before ++ h ∷ []) names hs s
            (Agrees-pass ngx wl h a ix.0 (omega arith)) ix.1 (omega arith))
        (λ f s. simp ix.0 (
          run_rules-run_names_from cnt (suc n) (bitmap_set ngx.int_t_len locked n)
            (before ++ h ∷ []) (h.key ∷ names) hs s
            (Agrees-lock ngx wl h a ix.0 (omega arith) (ground arith)) ix.1 (omega arith)))

  -- With an NGX_INT_T_LEN from 1 to 64, a granted bitmap and ids that are positions, the rule loop
  -- with its lock bitmap computes the chain that keeps a list of taken names instead.
  pub run_rules-run_names :
      (hs : List (HeaderVal H S)) (cnt : ℕ) (r : R)
      → IsIndexed hs cnt
      → run_rules ngx exec (bitmap_init ngx.int_t_len true cnt) [] hs r ≡ run_names ngx exec [] hs r
  run_rules-run_names hs cnt r ix =
      run_rules-run_names_from cnt 0 (bitmap_init ngx.int_t_len true cnt) [] [] hs r
        (record {
          room = bitmap_init-HasRoom ngx.int_t_len wl.positive wl.in_word true cnt;
          whole = λ b. in_range-init ngx.int_t_len cnt b true;
          clear = λ b le. bitmap_isset-init ngx.int_t_len wl.positive wl.in_word true cnt b;
          ids = tt;
          same = λ x. unfold locked_before in refl;
        })
        ix.ids (omega (arith, ix.counted))
