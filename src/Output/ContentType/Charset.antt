-- ===== src/Output/ContentType/Charset.antt =====
-- The charset that a value of Content-Type names.
use ngx_http_headers_control.Common.{
  ℕ, zero, suc, ◌+◌, ◌-◌, ◌^◌, ◌%◌, ◌<◌, ◌≤◌, ◌≡◌, refl, ap, ◌∙◌, Bool, true, false, not, ◌&&◌,
  none, some, [], ◌∷◌, ◌++◌, ◌==◌, ltb, length, length-append, take-append_length, append_assoc,
  replicate, take, arith,
}
use ngx_http_headers_control.Ngx.{Bytes, Ngx, FoldsCase}
use ngx_http_headers_control.Request.{HeadersOut}
use ngx_http_headers_control.Output.{OutRule}
use ngx_http_headers_control.Output.ContentType.{
  seeking, behind, charset_word, find_charset, is_quote, ends_quote, set_charset,
  content_type_fields,
}

-- A media type without parameters: no semicolon.
abbrev pub unparameterized : Bytes → Bool
unparameterized [] = true
unparameterized (c ∷ cs) = not (c == b';') && unparameterized cs

-- `type; charset=rest` with `n` blanks
abbrev pub with_charset : Bytes → ℕ → Bytes → Bytes
with_charset type n rest = type ++ (b';' ∷ (replicate n b' ' ++ (charset_word ++ rest)))

ends_quote-append : (xs : Bytes) → ends_quote (xs ++ b'"' ∷ []) ≡ true
ends_quote-append [] = refl
ends_quote-append (x ∷ []) = refl
ends_quote-append (x ∷ (y ∷ xs)) = ends_quote-append (y ∷ xs)

module _ (ngx : Ngx) (fc : FoldsCase ngx) where
  find_charset-type :
      (p : ℕ) (type rest : Bytes)
      → unparameterized type ≡ true
      → find_charset ngx seeking p (type ++ b';' ∷ rest)
        ≡ find_charset ngx (behind (p + length type)) (suc (p + length type)) rest
  unfolding find_charset
  find_charset-type p [] rest plain = let e : p + 0 ≡ p = omega arith in rw e refl
  find_charset-type p (c ∷ type) rest plain =
      let other : (c == b';') ≡ false = ground arith in
      let below : unparameterized type ≡ true = ground arith in
      let e : suc p + length type ≡ p + suc (length type) = omega arith in
      rw (other, find_charset) (rw e at (find_charset-type (suc p) type rest below))

  find_charset-blanks :
      (last p n : ℕ) (rest : Bytes)
      → find_charset ngx (behind last) p (replicate n b' ' ++ rest)
        ≡ find_charset ngx (behind last) (p + n) rest
  unfolding find_charset
  find_charset-blanks last p zero rest = let e : p + 0 ≡ p = omega arith in rw e refl
  find_charset-blanks last p (suc n) rest =
      let e : suc p + n ≡ p + suc n = omega arith in
      rw e at (find_charset-blanks last (suc p) n rest)

  find_charset-word :
      (last p : ℕ) (rest : Bytes)
      → find_charset ngx (behind last) p (charset_word ++ rest) ≡ some (last, rest)
  unfolding find_charset
  find_charset-word last p rest =
      let long : 8 ≤ length (charset_word ++ rest) = omega arith in
      let match : ngx.strncasecmp (charset_word ++ rest) charset_word 8 ≡ true =
        (fc.folds (charset_word ++ rest) charset_word 8 long (omega arith)).1 refl in
      let enough : ltb (length (charset_word ++ rest)) 8 ≡ false = ground arith in
      rw (enough, match, find_charset) refl

  find_charset-with_charset :
      (type : Bytes) (n : ℕ) (rest : Bytes)
      → unparameterized type ≡ true
      → find_charset ngx seeking 0 (with_charset type n rest) ≡ some (length type, rest)
  find_charset-with_charset type n rest plain =
      let e : 0 + length type ≡ length type = omega arith in
      rw e at (find_charset-type 0 type (replicate n b' ' ++ (charset_word ++ rest)) plain)
      ∙ find_charset-blanks (length type) (suc (length type)) n (charset_word ++ rest)
      ∙ find_charset-word (length type) (suc (length type) + n) rest

  module _ (hv : OutRule) (ho : HeadersOut) (type : Bytes) (n : ℕ) where
    ends_quote-with_charset :
        (xs : Bytes) → ends_quote (with_charset type n (xs ++ b'"' ∷ [])) ≡ true
    ends_quote-with_charset xs =
        rw
          (
            ← append_assoc (replicate n b' ') (charset_word ++ xs) (b'"' ∷ []),
            ← append_assoc type (b';' ∷ (replicate n b' ' ++ (charset_word ++ xs))) (b'"' ∷ []),
          )
          (ends_quote-append (type ++ b';' ∷ (replicate n b' ' ++ (charset_word ++ xs))))

    abbrev whole : HeadersOut → Bytes → HeadersOut
    whole h value = record h {
      content_type_len = length value;
      content_type = value;
      content_type_hash = hv.hash;
      content_type_lowcase = none;
    }

    content_type_fields-set_charset :
        (rest : Bytes)
        → unparameterized type ≡ true
        → content_type_fields ngx hv (with_charset type n rest) ho
          ≡ set_charset
              (with_charset type n rest)
              (length type)
              rest
              (whole ho (with_charset type n rest))
    unfolding content_type_fields
    content_type_fields-set_charset rest plain =
        rw (find_charset-with_charset type n rest plain, content_type_fields) refl

    -- With ngx_strncasecmp by its documentation, a type without a semicolon, then a semicolon,
    -- blanks, charset= and a charset shorter than 2^64 bytes give the length of the type and the
    -- charset with its length, if the charset does not begin with a quote and the value does not
    -- end with one.
    pub content_type_fields-charset :
        (rest : Bytes)
        → unparameterized type ≡ true
        → is_quote rest ≡ false
        → ends_quote (with_charset type n rest) ≡ false
        → length rest < 2 ^ 64
        → let ho' = content_type_fields ngx hv (with_charset type n rest) ho in
          (ho'.content_type_len ≡ length type)
          × (ho'.charset ≡ rest)
          × (ho'.charset_len ≡ length rest)
    unfolding set_charset
    content_type_fields-charset rest plain bare open_end fits =
        let set = content_type_fields-set_charset rest plain in
        let wrap : (length rest + 2 ^ 64 - 0) % 2 ^ 64 ≡ length rest = omega arith in
        (
          ap (λ h. h.content_type_len) set,
          ap (λ h. h.charset) set ∙ rw bare refl,
          ap (λ h. h.charset_len) set ∙ rw (bare, open_end) wrap,
        )

    -- With ngx_strncasecmp by its documentation, a type without a semicolon, then a semicolon,
    -- blanks, charset= and a charset shorter than 2^64 bytes in quotes give the length of the
    -- type, and the first charset.len bytes from charset.data on are the charset without its
    -- quotes.
    pub content_type_fields-quoted :
        (name : Bytes)
        → unparameterized type ≡ true
        → length name < 2 ^ 64
        → let value = with_charset type n (b'"' ∷ (name ++ b'"' ∷ [])) in
          let ho' = content_type_fields ngx hv value ho in
          (ho'.content_type_len ≡ length type)
          × (take ho'.charset_len ho'.charset ≡ name)
          × (ho'.charset_len ≡ length name)
    unfolding set_charset
    content_type_fields-quoted name plain fits =
        let set = content_type_fields-set_charset (b'"' ∷ (name ++ b'"' ∷ [])) plain in
        let closed = ends_quote-with_charset (b'"' ∷ name) in
        let two = length-append name (b'"' ∷ []) in
        let wrap : (length (name ++ b'"' ∷ []) + 2 ^ 64 - 1) % 2 ^ 64 ≡ length name = omega arith in
        let len = ap (λ h. h.charset_len) set ∙ rw closed wrap in
        (
          ap (λ h. h.content_type_len) set,
          rw len (ap (λ h. take (length name) h.charset) set ∙ take-append_length name (b'"' ∷ [])),
          len,
        )

    -- With ngx_strncasecmp by its documentation, a type without a semicolon, then a semicolon,
    -- blanks, charset= and one quote that ends the value make charset.len wrap around to 2^64 - 1.
    pub content_type_fields-lone_quote :
        unparameterized type ≡ true
        → (content_type_fields ngx hv (with_charset type n (b'"' ∷ [])) ho).charset_len ≡ 2 ^ 64 - 1
    unfolding set_charset
    content_type_fields-lone_quote plain =
        let set = content_type_fields-set_charset (b'"' ∷ []) plain in
        let closed : ends_quote (with_charset type n (b'"' ∷ [])) ≡ true =
          ends_quote-with_charset [] in
        ap (λ h. h.charset_len) set ∙ rw closed (omega arith)
