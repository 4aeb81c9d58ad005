-- ===== src/Directive/Parsed.antt =====
-- What the arguments behind the operation must look like for `parse_rule` to make a rule of them.
use ngx_http_headers_control.Common.{
  ◌<◌, ◌≡◌, refl, sym, ap, ◌∙◌, Bool, false, not, ◌&&◌, Option, none, some, List, [], ◌∷◌, ◌++◌,
  arith, ◌==◌, ltb, if◌then◌else◌, >>=-eq-some, length,
}
use ngx_http_headers_control.Ngx.{Bytes, Ngx}
use ngx_http_headers_control.Rule.{Opcode, HeaderVal, Handlers}
use ngx_http_headers_control.Directive.{
  ConfPool, any_space, ends_star, takes_value, is_append, is_clear, place, compiled, next_flag,
  first_arg, find_row, cleared, parse_condition, with_condition, is_builtin_header, parse_rule,
  parse_header,
}
use ngx_http_headers_control.Directive.Written.{
  Written, words, condition_words, value_words, HasText, terminated, filter_of, negative_of,
  stored-value, rule_of,
}
use ngx_http_headers_control.Directive.Spelled.{
  refuse_if-passed, length-nil, flag_words, next_flag-words_of, first_arg-cons, value_words-taken,
  compiled-text, parse_condition-words,
}

module _ {H S : Type 0} (pool : ConfPool) where
  -- The condition that was read from the words that are left, all of them.
  with_condition-written :
      {hv' : HeaderVal H S} {rest : List Bytes} (args : List Bytes) (hv : HeaderVal H S)
      → hv.filter ≡ none
      → hv.negative ≡ false
      → with_condition pool args hv ≡ some (hv', rest)
      → (length rest ≡ 0)
      → (c : Option (Bool × Bytes)) × (args ≡ condition_words c)
        × HasText c
        × (hv' ≡ record hv { filter = filter_of c; negative = negative_of c })
  unfolding with_condition
  with_condition-written [] hv f n e none_left = (none, refl, tt, ground arith)
  with_condition-written {hv' = hv'} {rest = rest} (arg ∷ args) hv f n e none_left =
      let (c, parsed, e) = >>=-eq-some (parse_condition arg) _ e in
      let (words, text) = parse_condition-words arg parsed in
      let (_, e) = refuse_if-passed (not pool.filter_granted) _ e in
      let (_, e) = refuse_if-passed (not (pool.compiles c.1)) _ e in
      let made : record hv { negative = c.0; filter = some c.1 } ≡ hv' = cc in
      let all : args ≡ rest = cc in
      let gone : args ≡ [] = length-nil args (ap length all ∙ none_left) in
      (some c, ap (λ t. arg ∷ t) gone ∙ words, text, sym made)

module _ (ngx : Ngx) {H S : Type 0} where
  parse_header-made :
      {rule : HeaderVal H S} (pool : ConfPool) (key value : Bytes) (hv : HeaderVal H S)
      (opcode : Opcode) (table : Handlers H S)
      → parse_header ngx pool key value hv opcode table ≡ some rule
      → (0 < length key)
        × (any_space key ≡ false)
        × (rule ≡ record hv {
          wildcard = ends_star key;
          hash = ngx.hash_key_lc key;
          key = key;
          offset = (place table (find_row ngx key table.rows)).0;
          handler = (place table (find_row ngx key table.rows)).1;
          value = terminated (if is_clear opcode then [] else value);
        })
  unfolding parse_header
  parse_header-made pool key value hv opcode table e =
      let (named, e) = refuse_if-passed (length key == 0) _ e in
      let (unspaced, e) = refuse_if-passed (any_space key) _ e in
      let (text, ok, e) = >>=-eq-some (compiled pool (if is_clear opcode then [] else value)) _ e in
      let stored = compiled-text pool (if is_clear opcode then [] else value) ok in
      (ground arith, unspaced, cc)

  -- The written rule that the arguments are, and that the rule stands for.
  pub record IsParsed (opcode : Opcode) (args : List Bytes) (table : Handlers H S)
      (rule : HeaderVal H S) : Type 0 where
    pub written : Written
    pub spelled : args ≡ words opcode written
    pub named : 0 < length written.key
    pub unspaced : any_space written.key ≡ false
    pub text : HasText written.condition
    pub allowed : (is_append opcode && is_builtin_header ngx written.key table.rows) ≡ false
    pub meant : rule ≡ rule_of ngx opcode written table

  assembled :
      (opcode : Opcode) (table : Handlers H S) (c : Option (Bool × Bytes))
      {args behind rest rest' : List Bytes} {next : Bool} {key value : Bytes}
      {hv made rule : HeaderVal H S}
      → args ≡ flag_words next ++ behind
      → behind ≡ key ∷ rest
      → rest ≡ value_words opcode value ++ rest'
      → value ≡ (if takes_value opcode then value else [])
      → rest' ≡ condition_words c
      → HasText c
      → hv ≡ record (record (cleared table opcode) { next = next }) {
        filter = filter_of c;
        negative = negative_of c;
      }
      → 0 < length key
      → any_space key ≡ false
      → made ≡ record hv {
        wildcard = ends_star key;
        hash = ngx.hash_key_lc key;
        key = key;
        offset = (place table (find_row ngx key table.rows)).0;
        handler = (place table (find_row ngx key table.rows)).1;
        value = terminated (if is_clear opcode then [] else value);
      }
      → (is_append opcode && is_builtin_header ngx made.key table.rows) ≡ false
      → some made ≡ some rule
      → IsParsed opcode args table rule
  assembled opcode table c {next = next} {key = key} {value = value} {made = made} {rule = rule}
        flag keyed valued kept condition text hv_is named unspaced made_is allowed same =
      let stored : terminated (if is_clear opcode then [] else value)
          ≡ (if takes_value opcode then terminated value else []) =
        ap (λ v. terminated (if is_clear opcode then [] else v)) kept ∙ stored-value opcode value in
      record {
        written = record { next = next; key = key; value = value; condition = c };
        spelled =
            flag
            ∙ ap (λ t. flag_words next ++ t)
                (keyed
                  ∙ ap (λ t. key ∷ t) (valued ∙ ap (λ t. value_words opcode value ++ t) condition));
        named = named;
        unspaced = unspaced;
        text = text;
        allowed = rw made_is at allowed;
        meant = (let back : rule ≡ made = cc in back) ∙ made_is ∙ rw (hv_is, stored) refl;
      }

  pub parse_rule-IsParsed :
      {rule : HeaderVal H S} (pool : ConfPool) (opcode : Opcode) (args : List Bytes)
      (table : Handlers H S)
      → parse_rule ngx pool opcode args table ≡ some rule
      → IsParsed opcode args table rule
  unfolding parse_rule
  parse_rule-IsParsed {rule} pool opcode args table e =
      let next = (next_flag args).0 in
      let ((key, rest), keyed, e) = >>=-eq-some (first_arg (next_flag args).1) _ e in
      let ((value, rest'), valued, e) =
        >>=-eq-some (if takes_value opcode then first_arg rest else some ([], rest)) _ e in
      let ((hv, rest''), conditioned, e) =
        >>=-eq-some (with_condition pool rest' (record (cleared table opcode) { next = next })) _
          e in
      let (used, e) = refuse_if-passed (ltb 0 (length rest'')) _ e in
      let (made, parsed, e) = >>=-eq-some (parse_header ngx pool key value hv opcode table) _ e in
      let (allowed, e) =
        refuse_if-passed (is_append opcode && is_builtin_header ngx made.key table.rows) _ e in
      let (c, condition, text, hv_is) =
        with_condition-written pool rest' (record (cleared table opcode) { next = next }) refl refl
          conditioned (ground arith) in
      let (value_is, kept) = value_words-taken opcode rest valued in
      let (named, unspaced, made_is) = parse_header-made pool key value hv opcode table parsed in
      assembled opcode table c (next_flag-words_of args) (first_arg-cons (next_flag args).1 keyed)
        value_is kept condition text hv_is named unspaced made_is allowed e
