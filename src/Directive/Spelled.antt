-- ===== src/Directive/Spelled.antt =====
-- The words that the steps of `parse_rule` accept.
use ngx_http_headers_control.Common.{
  ℕ, zero, suc, ◌<◌, ◌≡◌, refl, ap, inl, inr, Bool, true, false, not, ◌&&◌, Option, some, List, [],
  ◌∷◌, ◌++◌, arith, ◌==◌, ltb, Bool-cases, if◌then◌else◌, length, drop,
}
use ngx_http_headers_control.Ngx.{Bytes}
use ngx_http_headers_control.Rule.{Opcode}
use ngx_http_headers_control.Directive.{
  ConfPool, ◌>>◌, refuse_if, starts_with, takes_value, compiled, next_flag, first_arg,
  parse_condition,
}
use ngx_http_headers_control.Directive.Written.{condition_words, value_words, HasText, terminated}

starts_with-drop : (b a : Bytes) → starts_with b a ≡ true → a ≡ b ++ drop (length b) a
unfolding starts_with
starts_with-drop [] a h = refl
starts_with-drop (c ∷ b) [] h = absurd (ground arith)
starts_with-drop (c ∷ b) (d ∷ a) h =
    let same : d ≡ c = ground arith in
    rw same (ap (λ t. c ∷ t) (starts_with-drop b a (ground arith)))

starts_with-whole : (b a : Bytes) → starts_with b a ≡ true → length a ≡ length b → a ≡ b
unfolding starts_with
starts_with-whole [] [] h e = refl
starts_with-whole [] (d ∷ a) h e = absurd (omega (arith, e))
starts_with-whole (c ∷ b) [] h e = absurd (ground arith)
starts_with-whole (c ∷ b) (d ∷ a) h e =
    let same : d ≡ c = ground arith in
    rw same (ap (λ t. c ∷ t) (starts_with-whole b a (ground arith) (omega (arith, e))))

length-drop : (n : ℕ) (a : Bytes) → n < length a → 0 < length (drop n a)
length-drop zero a h = h
length-drop (suc n) [] h = absurd (omega (arith, h))
length-drop (suc n) (c ∷ a) h = length-drop n a (omega (arith, h))

pub refuse_if-passed :
    {B : Type 0} {b : B} (refused : Bool) (k : Option B)
    → (refuse_if refused >> k) ≡ some b
    → (refused ≡ false) × (k ≡ some b)
refuse_if-passed true k e = cc
refuse_if-passed false k e = (refl, e)

pub length-nil : {A : Type 0} (xs : List A) → length xs ≡ 0 → xs ≡ []
length-nil [] e = refl
length-nil (x ∷ xs) e = absurd (omega (arith, e))

-- The words that a flag takes.
abbrev pub flag_words : Bool → List Bytes
flag_words next = if next then (b'-' ∷ b'n' ∷ []) ∷ [] else []

pub next_flag-words_of :
    (args : List Bytes) → args ≡ flag_words (next_flag args).0 ++ (next_flag args).1
next_flag-words_of [] = refl
next_flag-words_of (arg ∷ args) =
    elim (Bool-cases (length arg == 2 && starts_with (b'-' ∷ b'n' ∷ []) arg)) [
      | inl flag ↦
          let whole = starts_with-whole (b'-' ∷ b'n' ∷ []) arg (ground arith) (ground arith) in
          rw flag (ap (λ t. t ∷ args) whole)
      | inr other ↦ rw other refl
    ]

pub first_arg-cons :
    {arg : Bytes} {rest : List Bytes} (args : List Bytes)
    → first_arg args ≡ some (arg, rest)
    → args ≡ arg ∷ rest
first_arg-cons [] e = cc
first_arg-cons (a ∷ more) e = cc

-- The value that an operation takes from its words.
pub value_words-taken :
    (opcode : Opcode) {value : Bytes} {rest : List Bytes} (args : List Bytes)
    → (if takes_value opcode then first_arg args else some ([], args)) ≡ some (value, rest)
    → (args ≡ value_words opcode value ++ rest)
      × (value ≡ (if takes_value opcode then value else []))
value_words-taken opcode args e = elim (Bool-cases (takes_value opcode)) [
  | inl takes ↦ rw takes (first_arg-cons args (rw takes at e), refl)
  | inr no_value ↦ let f = rw no_value at e in rw no_value (cc, cc)
]

pub compiled-text :
    (pool : ConfPool) (value : Bytes) {text : Bytes}
    → compiled pool value ≡ some text
    → text ≡ terminated value
compiled-text pool [] e = cc
compiled-text pool (c ∷ cs) e =
    let (_, e) = refuse_if-passed (not pool.value_granted) _ e in
    let (_, e) = refuse_if-passed (not (pool.compiles (c ∷ (cs ++ 0 ∷ [])))) _ e in cc

pub parse_condition-words :
    {c : Bool × Bytes} (arg : Bytes)
    → parse_condition arg ≡ some c
    → (arg ∷ [] ≡ condition_words (some c)) × HasText (some c)
unfolding parse_condition
parse_condition-words {c} arg e =
    elim (Bool-cases (ltb 3 (length arg) && starts_with (b'i' ∷ b'f' ∷ b'=' ∷ []) arg)) [
      | inl plain ↦
          let found : (false, drop 3 arg) ≡ c = let f = rw plain at e in cc in
          rw (← found) (
            ap (λ t. t ∷ []) (starts_with-drop (b'i' ∷ b'f' ∷ b'=' ∷ []) arg (ground arith)),
            length-drop 3 arg (ground arith),
          )
      | inr not_plain ↦
          let e = rw not_plain at e in
          elim (Bool-cases
            (ltb 4 (length arg) && starts_with (b'i' ∷ b'f' ∷ b'!' ∷ b'=' ∷ []) arg)) [
              | inl negated ↦
                  let found : (true, drop 4 arg) ≡ c = let f = rw negated at e in cc in
                  rw (← found) (
                    ap (λ t. t ∷ [])
                        (starts_with-drop (b'i' ∷ b'f' ∷ b'!' ∷ b'=' ∷ []) arg (ground arith)),
                    length-drop 4 arg (ground arith),
                  )
              | inr neither ↦ let f = rw neither at e in cc
            ]
    ]
