-- ===== src/Tests/Requests.antt =====
-- Request headers in one part of a list, and rules on them.
use ngx_http_headers_control.Common.{◌≡◌, refl, false, none, some, [], ◌∷◌, arith}
use ngx_http_headers_control.Ngx.{Bytes, rc_ok}
use ngx_http_headers_control.Rule.{Opcode, opcode_set, opcode_add}
use ngx_http_headers_control.Request.{Request, write_elt, in_user_agent}
use ngx_http_headers_control.Input.{
  InRule, Written, set_header, slot, nowhere, variable, set_header_helper_in,
}
use ngx_http_headers_control.Input.Created.{Added, set_header_helper_in-creates}
use ngx_http_headers_control.Input.Kept.{set_header_helper_in-keeps}
use ngx_http_headers_control.Input.Replaced.{with_value, set_header_helper_in-replaces}
use ngx_http_headers_control.Tests.Sample.{codes, sample}
use ngx_http_headers_control.Tests.Rules.{blank_list}
use ngx_http_headers_control.Tests.Lines.{
  element, heap, response, longer, http, headers-IsList, heap-IsPush,
}

abbrev in_rule : Opcode → Bytes → InRule
in_rule opcode key = record {
  value = codes "9";
  hash = 7;
  key = key;
  handler = set_header;
  offset = none;
  opcode = opcode;
  filter = none;
  negative = false;
  next = false;
  id = 0;
  wildcard = false;
}

set_header_helper_in-creates_example :
    (r' : Request) × (out : Written) × (set_header_helper_in sample http 5 response
        (in_rule opcode_set (codes "User-Agent"))
        (codes "9")
        (slot in_user_agent)
      ≡ some (rc_ok, r', out))
    × Added
        (in_rule opcode_set (codes "User-Agent"))
        (codes "9")
        (slot in_user_agent)
        response
        []
        2
        blank_list
        r'
        out
        []
set_header_helper_in-creates_example =
    set_header_helper_in-creates sample http response (in_rule opcode_set (codes "User-Agent"))
      (codes "9") (slot in_user_agent) [] headers-IsList 2 blank_list longer [] 1 [] refl refl refl
      heap-IsPush refl 5 (omega arith) refl

set_header_helper_in-keeps_example :
    set_header_helper_in sample http 5 response
      (in_rule opcode_add (codes "X-A"))
      (codes "9")
      nowhere
    ≡ some (rc_ok, response, none)
set_header_helper_in-keeps_example =
    set_header_helper_in-keeps sample http response (in_rule opcode_add (codes "X-A")) (codes "9")
      [] headers-IsList nowhere 5 (omega arith) refl

-- Two elements of different names.
abbrev host_request : Request
host_request = record response { heap = write_elt heap 1 (element (codes "Host") (codes "old")) }

set_header_helper_in-replaces_example :
    set_header_helper_in sample http 5 host_request
      (in_rule opcode_set (codes "HOST"))
      (codes "new")
      variable
    ≡ some (
      rc_ok,
      record host_request { heap = with_value host_request.heap 1 (codes "new") },
      some (some 1),
    )
set_header_helper_in-replaces_example =
    set_header_helper_in-replaces sample http host_request (in_rule opcode_set (codes "HOST"))
      (codes "new") [] (record { linked = (refl, refl); ends = refl; filled = tt }) variable 5
      (0 ∷ []) 1 [] (omega arith) refl refl refl refl refl refl refl tt
