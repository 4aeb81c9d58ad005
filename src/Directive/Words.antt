-- ===== src/Directive/Words.antt =====
-- The words of a directive: the operations, whatever their case.
use ngx_http_headers_control.Common.{
  ◌≡◌, refl, sym, ◌∙◌, ◌↔◌, Bool, true, false, ◌&&◌, Option, none, some, [], ◌∷◌, map, arith, ◌==◌,
  Bool-eq, if◌then◌else◌, ◌≤◌, length, length-map, take, take-length, ap, inl, inr, Bool-cases,
}
use ngx_http_headers_control.Ngx.{Bytes, Ngx, FoldsCase, to_lower, until_nul}
use ngx_http_headers_control.Rule.{
  Opcode, opcode_set, opcode_clear, opcode_add, opcode_append, opcode_rewrite, opcode_pass,
}
use ngx_http_headers_control.Directive.{is_word, parse_opcode}

abbrev pub bytes_eq : Bytes → Bytes → Bool
bytes_eq [] [] = true
bytes_eq (x ∷ xs) (y ∷ ys) = x == y && bytes_eq xs ys
bytes_eq _ _ = false

pub bytes_eq_iff : (a b : Bytes) → (bytes_eq a b ≡ true) ↔ (a ≡ b)
bytes_eq_iff (x ∷ a) (y ∷ b) = ground (arith, bytes_eq_iff a b)
bytes_eq_iff _ _ = ground arith

-- The operation that a word in lower case names.
abbrev pub keyword : Bytes → Option Opcode
keyword word =
    if bytes_eq word (b's' ∷ b'e' ∷ b't' ∷ [])
    then some opcode_set
    else if bytes_eq word (b'a' ∷ b'd' ∷ b'd' ∷ [])
    then some opcode_add
    else if bytes_eq word (b'p' ∷ b'a' ∷ b's' ∷ b's' ∷ [])
    then some opcode_pass
    else if bytes_eq word (b'c' ∷ b'l' ∷ b'e' ∷ b'a' ∷ b'r' ∷ [])
    then some opcode_clear
    else if bytes_eq word (b'a' ∷ b'p' ∷ b'p' ∷ b'e' ∷ b'n' ∷ b'd' ∷ [])
    then some opcode_append
    else if bytes_eq word (b'r' ∷ b'e' ∷ b'w' ∷ b'r' ∷ b'i' ∷ b't' ∷ b'e' ∷ [])
    then some opcode_rewrite
    else none

length-until_nul : (xs : Bytes) → length (until_nul xs) ≤ length xs
length-until_nul [] = omega arith
length-until_nul (x ∷ xs) = elim (Bool-cases (x == 0)) [
  | inl nul ↦ rw nul (omega arith)
  | inr other ↦ rw other (omega (arith, length-until_nul xs))
]

-- What is as long up to its first NUL has none.
until_nul-whole : (xs : Bytes) → length (until_nul xs) ≡ length xs → until_nul xs ≡ xs
until_nul-whole [] e = refl
until_nul-whole (x ∷ xs) e = elim (Bool-cases (x == 0)) [
  | inl nul ↦ absurd (omega (arith, rw nul at e))
  | inr other ↦ rw other (ap (λ t. x ∷ t) (until_nul-whole xs (omega (arith, rw other at e))))
]

module _ (ngx : Ngx) (fc : FoldsCase ngx) where
  -- A comparison with a word in lower case and with no NUL.
  is_word-bytes_eq :
      (arg word : Bytes)
      → map to_lower word ≡ word
      → until_nul word ≡ word
      → is_word ngx arg word ≡ bytes_eq (map to_lower arg) word
  unfolding is_word
  is_word-bytes_eq arg word lower ends =
      Bool-eq _ _
        (λ h.
          let long : length arg ≡ length word = ground arith in
          let upto : until_nul (map to_lower arg) ≡ word = ((whole long).0 (ground arith)) in
          let all =
            until_nul-whole (map to_lower arg)
              (ap length upto ∙ sym long ∙ sym (length-map to_lower arg)) in
          (bytes_eq_iff (map to_lower arg) word).1 (sym all ∙ upto))
        (λ h.
          let same = (bytes_eq_iff (map to_lower arg) word).0 h in
          let long : length arg ≡ length word = sym (length-map to_lower arg) ∙ ap length same in
          let equal = (whole long).1 (ap until_nul same ∙ ends) in ground arith)
    where
      whole :
          length arg ≡ length word
          → (ngx.strncasecmp arg word (length word) ≡ true) ↔ (until_nul (map to_lower arg) ≡ word)
      whole e =
          let all : take (length word) arg ≡ arg = rw (← e) (take-length arg) in
          rw (all, take-length word, lower, ends) at
            (fc.folds arg word (length word) (omega arith) (omega arith))

  -- With ngx_strncasecmp by its documentation, the operation of a directive is that of its first
  -- argument in lower case in the table of the six operation words.
  pub parse_opcode-keyword : (arg : Bytes) → parse_opcode ngx arg ≡ keyword (map to_lower arg)
  unfolding parse_opcode
  parse_opcode-keyword arg = rw (
    is_word-bytes_eq arg (b's' ∷ b'e' ∷ b't' ∷ []) refl refl,
    is_word-bytes_eq arg (b'a' ∷ b'd' ∷ b'd' ∷ []) refl refl,
    is_word-bytes_eq arg (b'p' ∷ b'a' ∷ b's' ∷ b's' ∷ []) refl refl,
    is_word-bytes_eq arg (b'c' ∷ b'l' ∷ b'e' ∷ b'a' ∷ b'r' ∷ []) refl refl,
    is_word-bytes_eq arg (b'a' ∷ b'p' ∷ b'p' ∷ b'e' ∷ b'n' ∷ b'd' ∷ []) refl refl,
    is_word-bytes_eq arg (b'r' ∷ b'e' ∷ b'w' ∷ b'r' ∷ b'i' ∷ b't' ∷ b'e' ∷ []) refl refl,
  )
