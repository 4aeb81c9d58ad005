-- ===== src/Tests/Levels.antt =====
-- Two configuration levels and their merge.
use ngx_http_headers_control.Common.{
  ℕ, ◌≡◌, ◌≢◌, refl, true, false, none, some, List, [], ◌∷◌, ◌++◌, replicate, length-replicate,
  arith,
}
use ngx_http_headers_control.Ngx.{Bytes}
use ngx_http_headers_control.Rule.{HeaderVal, LocConf, IsIndexed, opcode_set}
use ngx_http_headers_control.Merge.{MergePool, Extends, reindex, merge_one_array, merge_loc_conf}
use ngx_http_headers_control.Merge.Inherit.{merge_one_array-kept, merge_one_array-refused}
use ngx_http_headers_control.Merge.Levels.{IsIndexedConf, merge_loc_conf-IsIndexedConf}
use ngx_http_headers_control.Tests.Sample.{codes, sample, sample-HasWordLength}

abbrev rule : Bytes → (id : ℕ) → HeaderVal ℕ ℕ
rule key id = record {
  value = [];
  hash = 7;
  key = key;
  handler = 0;
  offset = none;
  opcode = opcode_set;
  filter = none;
  negative = false;
  next = false;
  id = id;
  wildcard = false;
}

abbrev pool : MergePool ℕ ℕ
pool = record { bits_granted = true; array_push_n = λ a n. some (a ++ replicate n (rule [] 0)) }

pool-Extends : Extends pool
pool-Extends = record {
  extends = λ a n e. (replicate n (rule [] 0), ground arith, length-replicate n (rule [] 0));
}

pool-pushes : (a : List (HeaderVal ℕ ℕ)) (n : ℕ) → pool.array_push_n a n ≢ none
pool-pushes a n e = ground arith

abbrev child : List (HeaderVal ℕ ℕ)
child = rule (codes "X-B") 0 ∷ []

abbrev parent : List (HeaderVal ℕ ℕ)
parent = rule (codes "X-A") 0 ∷ rule (codes "x-b") 1 ∷ []

parent-IsIndexed : IsIndexed parent 2
parent-IsIndexed = record { ids = (refl, (refl, tt)); counted = refl }

child-IsIndexed : IsIndexed child 1
child-IsIndexed = record { ids = (refl, tt); counted = refl }

abbrev merged_rules : List (HeaderVal ℕ ℕ)
merged_rules = rule (codes "X-B") 0 ∷ rule (codes "X-A") 1 ∷ []

merge_one_array-kept_example : merge_one_array sample pool child parent 2 ≡ some (merged_rules, 2)
unfolding reindex
merge_one_array-kept_example =
    merge_one_array-kept sample sample-HasWordLength pool child parent 2 refl pool-Extends
      (pool-pushes child) parent-IsIndexed

abbrev empty_pool : MergePool ℕ ℕ
empty_pool = record { bits_granted = true; array_push_n = λ a n. none }

merge_one_array-refused_example : merge_one_array sample empty_pool child parent 2 ≡ none
merge_one_array-refused_example =
    merge_one_array-refused sample sample-HasWordLength empty_pool child parent 2 refl
      parent-IsIndexed (omega arith) refl

abbrev level : List (HeaderVal ℕ ℕ) → ℕ → LocConf ℕ ℕ ℕ ℕ
level rules cnt = record {
  headers_in = none;
  headers_out = some rules;
  headers_in_cnt = 0;
  headers_out_cnt = cnt;
}

merge_loc_conf-IsIndexedConf_example :
    (merged : LocConf ℕ ℕ ℕ ℕ) × (merge_loc_conf sample pool pool (level parent 2) (level child 1)
      ≡ some merged)
    × IsIndexedConf merged
merge_loc_conf-IsIndexedConf_example =
    merge_loc_conf-IsIndexedConf sample pool pool (level parent 2) (level child 1) pool-pushes
      pool-pushes (record { inputs = tt; outputs = parent-IsIndexed })
      (record { inputs = tt; outputs = child-IsIndexed })
