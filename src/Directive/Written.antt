-- ===== src/Directive/Written.antt =====
-- The rule that a directive stands for, and the way back from a rule to a directive.
use ngx_http_headers_control.Common.{
  ◌<◌, ◌≡◌, refl, inl, inr, Bool, true, false, ◌&&◌, Option, none, some, List, [], ◌∷◌, ◌++◌, arith,
  ◌==◌, Bool-cases, if◌then◌else◌, length,
}
use ngx_http_headers_control.Ngx.{Bytes, Ngx}
use ngx_http_headers_control.Rule.{Opcode, opcode_clear, HeaderVal, Handlers}
use ngx_http_headers_control.Directive.{
  ConfPool, starts_with, any_space, ends_star, takes_value, is_append, is_clear, place, compiled,
  next_flag, first_arg, find_row, cleared, with_condition, is_builtin_header, parse_rule,
  parse_header,
}

-- The pool grants everything and every text compiles.
pub record Grants (pool : ConfPool) : Type 0 where
  pub filter : pool.filter_granted ≡ true
  pub value : pool.value_granted ≡ true
  pub texts : (text : Bytes) → pool.compiles text ≡ true

-- What may be written behind the operation: `-n`, the name, the value and the condition.
pub record Written : Type 0 where
  pub next : Bool
  pub key : Bytes
  pub value : Bytes
  pub condition : Option (Bool × Bytes)

abbrev pub condition_words : Option (Bool × Bytes) → List Bytes
condition_words none = []
condition_words (some (true, s)) = (b'i' ∷ b'f' ∷ b'!' ∷ b'=' ∷ s) ∷ []
condition_words (some (false, s)) = (b'i' ∷ b'f' ∷ b'=' ∷ s) ∷ []

abbrev pub value_words : Opcode → Bytes → List Bytes
value_words opcode value = if takes_value opcode then value ∷ [] else []

abbrev pub words : Opcode → Written → List Bytes
words opcode w =
    (if w.next then (b'-' ∷ b'n' ∷ []) ∷ [] else [])
    ++ (w.key ∷ (value_words opcode w.value ++ condition_words w.condition))

-- A condition that is written has a text.
abbrev pub HasText : Option (Bool × Bytes) → Type 0
HasText none = Unit
HasText (some (negative, s)) = 0 < length s

-- A name that can be written: it is not empty, has no white space and is not the flag.
pub record IsWritable (w : Written) : Type 0 where
  pub named : 0 < length w.key
  pub unspaced : any_space w.key ≡ false
  pub unflagged : (length w.key == 2 && starts_with (b'-' ∷ b'n' ∷ []) w.key) ≡ false
  pub text : HasText w.condition

abbrev pub terminated : Bytes → Bytes
terminated [] = []
terminated (c ∷ cs) = c ∷ (cs ++ 0 ∷ [])

abbrev pub filter_of : Option (Bool × Bytes) → Option Bytes
filter_of none = none
filter_of (some (negative, s)) = some s

abbrev pub negative_of : Option (Bool × Bytes) → Bool
negative_of none = false
negative_of (some (negative, s)) = negative

next_flag-words :
    (opcode : Opcode) (w : Written)
    → IsWritable w
    → next_flag (words opcode w)
      ≡ (w.next, w.key ∷ (value_words opcode w.value ++ condition_words w.condition))
unfolding starts_with
next_flag-words opcode w ok = elim (Bool-cases w.next) [
  | inl n ↦ rw n
  | inr n ↦ rw (n, ok.unflagged)
]

value_step :
    (opcode : Opcode) (value : Bytes) (rest : List Bytes)
    → (if takes_value opcode
        then first_arg (value_words opcode value ++ rest)
        else some ([], value_words opcode value ++ rest))
      ≡ some ((if takes_value opcode then value else []), rest)
value_step opcode_clear value rest = refl
value_step _ value rest = refl

compiled-terminated :
    (pool : ConfPool) (value : Bytes) → Grants pool → compiled pool value ≡ some (terminated value)
compiled-terminated pool [] g = refl
compiled-terminated pool (c ∷ cs) g = rw (g.value, g.texts)

pub stored-value :
    (opcode : Opcode) (value : Bytes)
    → terminated (if is_clear opcode then [] else if takes_value opcode then value else [])
      ≡ (if takes_value opcode then terminated value else [])
stored-value opcode_clear value = refl
stored-value _ value = refl

module _ (ngx : Ngx) {H S : Type 0} where
  -- The rule, before it has an id.
  abbrev pub rule_of : Opcode → Written → Handlers H S → HeaderVal H S
  rule_of opcode w table =
      let (offset, handler) = place table (find_row ngx w.key table.rows) in
      record {
        value = if takes_value opcode then terminated w.value else [];
        hash = ngx.hash_key_lc w.key;
        key = w.key;
        handler = handler;
        offset = offset;
        opcode = opcode;
        filter = filter_of w.condition;
        negative = negative_of w.condition;
        next = w.next;
        id = 0;
        wildcard = ends_star w.key;
      }

  with_condition-words :
      (pool : ConfPool) (c : Option (Bool × Bytes)) (hv : HeaderVal H S)
      → Grants pool
      → HasText c
      → hv.filter ≡ none
      → hv.negative ≡ false
      → with_condition pool (condition_words c) hv
        ≡ some (record hv { filter = filter_of c; negative = negative_of c }, [])
  unfolding with_condition
  with_condition-words pool none hv g t f n = ground arith
  with_condition-words pool (some (true, s)) hv g t f n = ground (arith, g.filter, g.texts s)
  with_condition-words pool (some (false, s)) hv g t f n = ground (arith, g.filter, g.texts s)

  parse_header-rule_of :
      (pool : ConfPool) (opcode : Opcode) (w : Written) (table : Handlers H S)
      → Grants pool
      → IsWritable w
      → parse_header ngx pool w.key
          (if takes_value opcode then w.value else [])
          (record (cleared table opcode) {
            next = w.next;
            filter = filter_of w.condition;
            negative = negative_of w.condition;
          })
          opcode
          table
        ≡ some (rule_of opcode w table)
  unfolding parse_header
  parse_header-rule_of pool opcode w table g ok =
      let some_name : (length w.key == 0) ≡ false = ground (arith, ok.named) in
      rw (some_name, ok.unspaced, compiled-terminated pool _ g, stored-value opcode w.value)

  -- With a pool that grants everything and texts that all compile, a rule that is written as a
  -- directive is read back, by every operation, with its flag, name, value with a NUL behind it,
  -- condition and table row, if its name is not empty, has no white space and is not the flag, its
  -- condition has a text, and an append names no header of the table.
  pub parse_rule-words :
      (pool : ConfPool) (opcode : Opcode) (w : Written) (table : Handlers H S)
      → Grants pool
      → IsWritable w
      → (is_append opcode && is_builtin_header ngx w.key table.rows) ≡ false
      → parse_rule ngx pool opcode (words opcode w) table ≡ some (rule_of opcode w table)
  unfolding parse_rule
  parse_rule-words pool opcode w table g ok fresh = rw (
    next_flag-words opcode w ok,
    value_step opcode w.value (condition_words w.condition),
    with_condition-words pool w.condition (record (cleared table opcode) { next = w.next }) g
        ok.text refl refl,
    parse_header-rule_of pool opcode w table g ok,
    fresh,
  )
