-- ===== src/Tests/Directives.antt =====
-- Directives, names and bitmaps.
use ngx_http_headers_control.Common.{
  ℕ, ◌≡◌, refl, ◌&&◌, ◌==◌, true, false, none, some, List, [], ◌∷◌, arith, if◌then◌else◌,
}
use ngx_http_headers_control.Ngx.{Bytes, isspace}
use ngx_http_headers_control.Rule.{HeaderVal, IsIndexed, opcode_set, Handlers}
use ngx_http_headers_control.Bitmap.{bitmap_init, bitmap_set, bitmap_isset}
use ngx_http_headers_control.Bitmap.Laws.{in_range, bitmap_init-HasRoom, bitmap_isset-set}
use ngx_http_headers_control.Directive.{
  ConfPool, any_space, starts_with, parse_header, find_row, with_condition, is_builtin_header,
  parse_opcode, parse_rule, add_rule,
}
use ngx_http_headers_control.Directive.Words.{keyword, parse_opcode-keyword}
use ngx_http_headers_control.Directive.Accepted.{AddedRule, add_rule-AddedRule, add_rule-IsIndexed}
use ngx_http_headers_control.Directive.Written.{
  Grants, Written, IsWritable, rule_of, parse_rule-words,
}
use ngx_http_headers_control.Tests.Sample.{codes, sample, sample-FoldsCase}

abbrev pool : ConfPool
pool = record {
  array_created = true;
  array_pushed = true;
  filter_granted = true;
  value_granted = true;
  compiles = λ text. true;
}

pool-Grants : Grants pool
pool-Grants = record { filter = refl; value = refl; texts = λ text. refl }

abbrev table : Handlers ℕ ℕ
table = record {
  rows = record { name = codes "Host"; offset = some 3; handler = 4 } ∷ [];
  default = 0;
}

abbrev written : Written
written = record {
  next = true;
  key = codes "X-A";
  value = codes "on";
  condition = some (true, codes "1");
}

written-IsWritable : IsWritable written
unfolding any_space isspace starts_with
written-IsWritable = record {
  named = omega arith;
  unspaced = refl;
  unflagged = refl;
  text = omega arith;
}

parse_rule-words_example :
    parse_rule sample pool opcode_set
      (codes "-n" ∷ codes "X-A" ∷ codes "on" ∷ codes "if!=1" ∷ [])
      table
    ≡ some (rule_of sample opcode_set written table)
parse_rule-words_example =
    parse_rule-words sample pool opcode_set written table pool-Grants written-IsWritable refl

abbrev args : List Bytes
args = codes "SET" ∷ codes "host" ∷ codes "on" ∷ []

abbrev host_rule : HeaderVal ℕ ℕ
host_rule = record {
  value = codes "on\0";
  hash = 7;
  key = codes "host";
  handler = 4;
  offset = some 3;
  opcode = opcode_set;
  filter = none;
  negative = false;
  next = false;
  id = 0;
  wildcard = false;
}

accepted : add_rule sample pool args table none 0 ≡ some (host_rule ∷ [], 1)
unfolding add_rule parse_opcode parse_rule parse_header find_row with_condition is_builtin_header
    any_space isspace
accepted = refl

add_rule-AddedRule_example : AddedRule sample args table [] (host_rule ∷ []) 0 1
add_rule-AddedRule_example =
    add_rule-AddedRule sample pool args table none 0 sample-FoldsCase accepted

add_rule-IsIndexed_example : IsIndexed (host_rule ∷ []) 1
add_rule-IsIndexed_example =
    add_rule-IsIndexed sample pool args table none 0 (record { ids = tt; counted = refl }) accepted

parse_opcode-keyword_example : parse_opcode sample (codes "ReWrite") ≡ keyword (codes "rewrite")
parse_opcode-keyword_example = parse_opcode-keyword sample sample-FoldsCase (codes "ReWrite")

bitmap_isset-set_example : bitmap_isset 20 (bitmap_set 20 (bitmap_init 20 true 50) 41) 40 ≡ (
    if in_range (bitmap_init 20 true 50) 41 && 41 == 40
    then true
    else bitmap_isset 20 (bitmap_init 20 true 50) 40)
bitmap_isset-set_example =
    bitmap_isset-set 20 (omega arith) (omega arith) (bitmap_init 20 true 50) 41 40
      (bitmap_init-HasRoom 20 (omega arith) (omega arith) true 50)
