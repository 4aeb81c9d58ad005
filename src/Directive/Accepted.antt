-- ===== src/Directive/Accepted.antt =====
-- What a directive that was accepted leaves in the configuration.
use ngx_http_headers_control.Common.{
  ℕ, suc, ◌+◌, ◌<◌, ◌≡◌, refl, sym, ap, ◌∙◌, inl, inr, false, ◌&&◌, map, Option, some, List, [],
  ◌∷◌, ◌++◌, arith, Option-cases, length, length-append,
}
use ngx_http_headers_control.Ngx.{Bytes, Ngx, FoldsCase, to_lower}
use ngx_http_headers_control.Rule.{Opcode, HeaderVal, Handlers, IndexedFrom, IsIndexed}
use ngx_http_headers_control.Directive.{
  ConfPool, elements, any_space, is_append, is_builtin_header, parse_opcode, parse_rule, add_rule,
}
use ngx_http_headers_control.Directive.Words.{keyword, parse_opcode-keyword}
use ngx_http_headers_control.Directive.Written.{Written, words, HasText, rule_of}
use ngx_http_headers_control.Directive.Parsed.{parse_rule-IsParsed}

module _ {H S : Type 0} where
  IndexedFrom-append :
      (k : ℕ) (xs : List (HeaderVal H S)) (h : HeaderVal H S)
      → IndexedFrom k xs
      → h.id ≡ k + length xs
      → IndexedFrom k (xs ++ h ∷ [])
  IndexedFrom-append k [] h ix e = (omega (arith, e), tt)
  IndexedFrom-append k (x ∷ xs) h ix e =
      (ix.0, IndexedFrom-append (suc k) xs h ix.1 (omega (arith, e)))

  -- What an accepted directive ran through.
  record Ran (ngx : Ngx) (pool : ConfPool) (args : List Bytes) (table : Handlers H S)
      (old new : List (HeaderVal H S)) (cnt cnt' : ℕ) : Type 0 where
    word : Bytes
    rest : List Bytes
    opcode : Opcode
    rule : HeaderVal H S
    splits : args ≡ word ∷ rest
    operation : parse_opcode ngx word ≡ some opcode
    parsed : parse_rule ngx pool opcode rest table ≡ some rule
    appended : new ≡ old ++ record rule { id = cnt } ∷ []
    counted : cnt' ≡ suc cnt

  add_rule-Ran :
      (ngx : Ngx) (pool : ConfPool) (args : List Bytes) (table : Handlers H S)
      (headers : Option (List (HeaderVal H S))) (cnt : ℕ) {new : List (HeaderVal H S)} {cnt' : ℕ}
      → add_rule ngx pool args table headers cnt ≡ some (new, cnt')
      → Ran ngx pool args table (elements headers) new cnt cnt'
  unfolding add_rule
  add_rule-Ran ngx pool [] table headers cnt e = cc
  add_rule-Ran ngx pool (word ∷ rest) table headers cnt {new} e =
      elim (Option-cases (parse_opcode ngx word)) [
        | inl unknown ↦ absurd (ground arith)
        | inr (opcode, operation) ↦ elim (Option-cases (parse_rule ngx pool opcode rest table)) [
          | inl refused ↦ absurd (ground arith)
          | inr (rule, parsed) ↦ record {
            word = word;
            rest = rest;
            opcode = opcode;
            rule = rule;
            splits = refl;
            operation = operation;
            parsed = parsed;
            appended = appended_lem operation parsed;
            counted = ground arith;
          }
        ]
      ]
    where
      appended_lem :
          {opcode : Opcode} {rule : HeaderVal H S}
          → parse_opcode ngx word ≡ some opcode
          → parse_rule ngx pool opcode rest table ≡ some rule
          → new ≡ elements headers ++ record rule { id = cnt } ∷ []
      appended_lem operation parsed = ground arith

  -- The operation and the rule that the arguments of a directive spell, and the array with that
  -- rule at its end, with the counter as its id.
  pub record AddedRule (ngx : Ngx) (args : List Bytes) (table : Handlers H S)
      (old new : List (HeaderVal H S)) (cnt cnt' : ℕ) : Type 0 where
    pub word : Bytes
    pub opcode : Opcode
    pub written : Written
    pub spelled : args ≡ word ∷ words opcode written
    pub operation : keyword (map to_lower word) ≡ some opcode
    pub named : 0 < length written.key
    pub unspaced : any_space written.key ≡ false
    pub text : HasText written.condition
    pub allowed : (is_append opcode && is_builtin_header ngx written.key table.rows) ≡ false
    pub appended : new ≡ old ++ record (rule_of ngx opcode written table) { id = cnt } ∷ []
    pub counted : cnt' ≡ suc cnt

  -- With ngx_strncasecmp by its documentation, an accepted directive is an operation word, in any
  -- case, followed by the words of a rule as they may be written: -n or not, a name that is not
  -- empty and has no white space, a value if the operation takes one, and a condition with a text
  -- or none; it is no append to a header of the table, and the array is the old one with exactly
  -- the rule that these words spell at its end, with the counter as its id; the counter goes up by
  -- one.
  pub add_rule-AddedRule :
      (ngx : Ngx) (pool : ConfPool) (args : List Bytes) (table : Handlers H S)
      (headers : Option (List (HeaderVal H S))) (cnt : ℕ) {new : List (HeaderVal H S)} {cnt' : ℕ}
      → FoldsCase ngx
      → add_rule ngx pool args table headers cnt ≡ some (new, cnt')
      → AddedRule ngx args table (elements headers) new cnt cnt'
  add_rule-AddedRule ngx pool args table headers cnt fc e =
      let ran = add_rule-Ran ngx pool args table headers cnt e in
      let parsed = parse_rule-IsParsed ngx pool ran.opcode ran.rest table ran.parsed in
      record {
        word = ran.word;
        opcode = ran.opcode;
        written = parsed.written;
        spelled = ran.splits ∙ ap (λ t. ran.word ∷ t) parsed.spelled;
        operation = sym (parse_opcode-keyword ngx fc ran.word) ∙ ran.operation;
        named = parsed.named;
        unspaced = parsed.unspaced;
        text = parsed.text;
        allowed = parsed.allowed;
        appended =
            ran.appended ∙ ap (λ h. elements headers ++ record h { id = cnt } ∷ []) parsed.meant;
        counted = ran.counted;
      }

  -- If the ids in the array are positions and the counter is its length, so they are after an
  -- accepted directive.
  pub add_rule-IsIndexed :
      (ngx : Ngx) (pool : ConfPool) (args : List Bytes) (table : Handlers H S)
      (headers : Option (List (HeaderVal H S))) (cnt : ℕ) {new : List (HeaderVal H S)} {cnt' : ℕ}
      → IsIndexed (elements headers) cnt
      → add_rule ngx pool args table headers cnt ≡ some (new, cnt')
      → IsIndexed new cnt'
  add_rule-IsIndexed ngx pool args table headers cnt ix e =
      let ran = add_rule-Ran ngx pool args table headers cnt e in
      rw (ran.counted, ran.appended)
        (record {
          ids =
              IndexedFrom-append 0 (elements headers) (record ran.rule { id = cnt }) ix.ids
                (omega (arith, ix.counted));
          counted = omega (
            arith,
            ix.counted,
            length-append (elements headers) (record ran.rule { id = cnt } ∷ []),
          );
        })
