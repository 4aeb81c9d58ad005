-- ===== src/Tests/Rules.antt =====
-- Rules, levels and requests that the theorems on the rule loop and the merge apply to.
use ngx_http_headers_control.Common.{
  ℕ, ◌≡◌, refl, Bool, true, false, Option, none, some, List, [], ◌∷◌, arith, ◌>>=◌,
}
use ngx_http_headers_control.Ngx.{Bytes, rc_ok}
use ngx_http_headers_control.Bitmap.{bitmap_init}
use ngx_http_headers_control.Rule.{Opcode, opcode_pass, opcode_set, HeaderVal, MainConf, IsIndexed}
use ngx_http_headers_control.Condition.{ready}
use ngx_http_headers_control.Chain.{run_rules}
use ngx_http_headers_control.Chain.Locks.{run_names, run_rules-run_names}
use ngx_http_headers_control.Chain.Break.{run_rules-break}
use ngx_http_headers_control.Request.{HeaderList, Heap, Request, Http, connection_unset}
use ngx_http_headers_control.Output.{OutHandler, OutRule}
use ngx_http_headers_control.Output.Exec.{exec_output_header}
use ngx_http_headers_control.Input.{InHandler, InRule}
use ngx_http_headers_control.Input.Exec.{exec_input_header}
use ngx_http_headers_control.Output as Output
use ngx_http_headers_control.Input as Input
use ngx_http_headers_control.Phase.{
  Conf, PhaseHandler, Engine, filter, filter_end, handler, handler_end, postpone,
}
use ngx_http_headers_control.Phase.Entry.{filter-run_names, handler-run_names, filter-refused}
use ngx_http_headers_control.Phase.Postpone.{postpone-rotates}
use ngx_http_headers_control.Tests.Sample.{codes, sample, sample-HasWordLength}

abbrev pub rule : {H S : Type 0} → H → Opcode → Bytes → (id : ℕ) → (next : Bool) → HeaderVal H S
rule h op key id next = record {
  value = [];
  hash = 7;
  key = key;
  handler = h;
  offset = none;
  opcode = op;
  filter = none;
  negative = false;
  next = next;
  id = id;
  wildcard = false;
}

abbrev out_rules : List OutRule
out_rules =
    rule Output.set_header opcode_pass (codes "X-A") 0 false
    ∷ rule Output.set_header opcode_set (codes "x-a") 1 false
    ∷ []

abbrev in_rules : List InRule
in_rules = rule Input.set_header opcode_pass (codes "X-A") 0 true ∷ []

abbrev conf : Conf
conf = record {
  headers_in = some in_rules;
  headers_out = some out_rules;
  headers_in_cnt = 1;
  headers_out_cnt = 2;
}

out-IsIndexed : IsIndexed out_rules 2
out-IsIndexed = record { ids = (refl, (refl, tt)); counted = refl }

in-IsIndexed : IsIndexed in_rules 1
in-IsIndexed = record { ids = (refl, tt); counted = refl }

abbrev pub blank_list : HeaderList
blank_list = record { part = 0; last = some 0; nalloc = 20 }

abbrev blank_heap : Heap
blank_heap = record {
  parts = λ p. record { elts = 0; nelts = 0; next = none };
  elt = λ a. record { hash = 0; key = []; value = []; lowcase_key = []; next = none };
}

abbrev pub request : (pool : List (Option ℕ)) → Request
request pool = record {
  heap = blank_heap;
  pool = pool;
  headers_in = record {
    headers = blank_list;
    slots = λ s. none;
    server = [];
    content_length_n = none;
    keep_alive_n = none;
    connection_type = connection_unset;
    msie = false;
    msie6 = false;
    opera = false;
    gecko = false;
    chrome = false;
    safari = false;
    konqueror = false;
  };
  headers_out = record {
    headers = blank_list;
    slots = λ s. none;
    status = 200;
    content_length_n = none;
    content_type = [];
    content_type_len = 0;
    content_type_hash = 0;
    content_type_lowcase = none;
    charset_len = 0;
    charset = [];
  };
  parents = [];
  http_version = 1001;
  keepalive = false;
  allow_ranges = false;
}

abbrev http : Http
http = record {
  list_push = λ l h. none;
  complex_value = λ r text. some text;
  next_header_filter = λ r. (rc_ok, r);
}

filter-run_names_example :
    filter sample http 9 conf (request (some 1 ∷ []))
    ≡ filter_end sample http 9
        (run_names sample (exec_output_header sample http 9) [] out_rules (request []))
filter-run_names_example =
    filter-run_names sample http 9 conf (request (some 1 ∷ [])) sample-HasWordLength out_rules 1 []
      refl out-IsIndexed refl

abbrev main_conf : Bool → MainConf
main_conf postponed = record {
  postponed_to_phase_end = postponed;
  requires_filter = true;
  requires_handler = true;
}

abbrev phase_handlers : List PhaseHandler
phase_handlers =
    record { checker = 1; handler = 5; next = 3 }
    ∷ record { checker = 1; handler = 6; next = 3 }
    ∷ []

abbrev engine : Engine
engine = record { handlers = phase_handlers; phase_handler = some 1 }

handler-run_names_example :
    handler sample http 9 conf (main_conf true) engine (request (some 1 ∷ [])) ≡ (
      handler_end sample http 9
        (run_names sample (exec_input_header sample http 9) [] in_rules (request []))
      >>= λ (rc, r'). some (rc, r', main_conf true, engine))
handler-run_names_example =
    handler-run_names sample http 9 conf (request (some 1 ∷ [])) sample-HasWordLength in_rules 1 []
      (main_conf true) engine refl in-IsIndexed refl refl refl

pass_rule :
    exec_output_header sample http 9
      (request [])
      (rule Output.set_header opcode_pass (codes "X-A") 0 false)
    ≡ some (rc_ok, request [])
unfolding exec_output_header ready
pass_rule = refl

filter-refused_example : filter sample http 9 conf (request (none ∷ [])) ≡ none
filter-refused_example =
    filter-refused sample http 9 conf (request (none ∷ []))
      (rule Output.set_header opcode_pass (codes "X-A") 0 false)
      (rule Output.set_header opcode_set (codes "x-a") 1 false ∷ []) [] (request []) refl refl refl
      pass_rule

run_rules-run_names_example :
    run_rules sample
      (exec_output_header sample http 9)
      (bitmap_init 20 true 2)
      []
      out_rules
      (request [])
    ≡ run_names sample (exec_output_header sample http 9) [] out_rules (request [])
run_rules-run_names_example =
    run_rules-run_names sample sample-HasWordLength (exec_output_header sample http 9) out_rules 2
      (request []) out-IsIndexed

run_rules-break_example :
    run_rules sample
      (exec_output_header sample http 9)
      (bitmap_init 20 true 2)
      []
      out_rules
      (request [])
    ≡ run_names sample (exec_output_header sample http 9) (codes "X-A" ∷ []) [] (request [])
run_rules-break_example =
    run_rules-break sample sample-HasWordLength (exec_output_header sample http 9)
      (rule Output.set_header opcode_pass (codes "X-A") 0 false)
      (rule Output.set_header opcode_set (codes "x-a") 1 false) [] [] 2 (request []) (request [])
      out-IsIndexed pass_rule refl refl refl

abbrev rewrite_phase : ℕ → PhaseHandler
rewrite_phase handler = record { checker = 1; handler = handler; next = 3 }

postpone-rotates_example :
    (postpone (main_conf false) (record {
      handlers = rewrite_phase 5 ∷ rewrite_phase 6 ∷ rewrite_phase 7 ∷ rewrite_phase 8 ∷ [];
      phase_handler = some 1;
    })
      ≡ some (
        true,
        main_conf true,
        record {
          handlers = rewrite_phase 5 ∷ rewrite_phase 7 ∷ rewrite_phase 6 ∷ rewrite_phase 8 ∷ [];
          phase_handler = some 0;
        },
      ))
    × ((e : Engine) → postpone (main_conf true) e ≡ some (false, main_conf true, e))
postpone-rotates_example =
    postpone-rotates (rewrite_phase 5 ∷ []) (rewrite_phase 7 ∷ []) (rewrite_phase 8 ∷ [])
      (rewrite_phase 6) (main_conf false) refl refl (omega arith)
