-- ===== src/Tests/Lines.antt =====
-- Response headers in one part of a list, and rules on them.
use ngx_http_headers_control.Common.{
  ℕ, ◌+◌, Option, ◌≡◌, refl, false, none, some, List, [], ◌∷◌, ◌==◌, if◌then◌else◌, arith,
}
use ngx_http_headers_control.Ngx.{Bytes, rc_ok}
use ngx_http_headers_control.Rule.{Opcode, opcode_set, opcode_add}
use ngx_http_headers_control.Request.{
  Elt, Heap, HeaderList, write_part, Request, Http, Cursor, walk,
}
use ngx_http_headers_control.Request.Whole.{IsList, IsPush}
use ngx_http_headers_control.Output.{OutRule, set_header, set_header_helper}
use ngx_http_headers_control.Output.Lines.{lines}
use ngx_http_headers_control.Output.Effect.{set_header_helper-settle, set_header_helper-add}
use ngx_http_headers_control.Output.Created.{Added, set_header_helper-creates}
use ngx_http_headers_control.Tests.Sample.{codes, sample}
use ngx_http_headers_control.Tests.Rules.{blank_list, request}

abbrev pub element : Bytes → Bytes → Elt
element key value = record { hash = 7; key = key; value = value; lowcase_key = []; next = none }

-- Two lines at the addresses 0 and 1.
abbrev pub heap : Heap
heap = record {
  parts = λ p. record { elts = 0; nelts = 2; next = none };
  elt =
      λ a. if a == 0 then element (codes "X-A") (codes "1") else element (codes "x-a") (codes "2");
}

abbrev pub response : Request
response = record (request (some 1 ∷ [])) { heap = heap }

-- `ngx_list_push` into the room of the last part, in a pool with no memory for another part.
abbrev push : HeaderList → Heap → Option (ℕ × HeaderList × Heap)
push l h = elim l.last [
  | none ↦ none
  | some p ↦
      if (h.parts p).nelts == l.nalloc
      then none
      else some (
        (h.parts p).elts + (h.parts p).nelts,
        l,
        write_part h p (record (h.parts p) { nelts = (h.parts p).nelts + 1 }),
      )
]

abbrev pub http : Http
http = record {
  list_push = push;
  complex_value = λ r text. some text;
  next_header_filter = λ r. (rc_ok, r);
}

abbrev pub longer : Heap
longer = write_part heap 0 (record { elts = 0; nelts = 3; next = none })

pub headers-IsList : IsList heap blank_list []
headers-IsList = record { linked = (refl, refl); ends = refl; filled = tt }

pub heap-IsPush : IsPush heap blank_list [] 2 longer blank_list []
heap-IsPush = record {
  list = record { linked = (refl, refl); ends = refl; filled = tt };
  behind = refl;
  fresh = (omega arith, (omega arith, tt));
  aside = λ b ne. refl;
}

abbrev out_rule : Opcode → Bytes → OutRule
out_rule opcode key = record {
  value = codes "9";
  hash = 7;
  key = key;
  handler = set_header;
  offset = none;
  opcode = opcode;
  filter = none;
  negative = false;
  next = false;
  id = 0;
  wildcard = false;
}

abbrev both : List Cursor
both = record { part = 0; index = 0 } ∷ record { part = 0; index = 1 } ∷ []

walked : walk 5 heap 0 0 ≡ some both
unfolding walk
walked = refl

set_header_helper-settle_example :
    (r' : Request) × (set_header_helper sample http 5 response
        (out_rule opcode_set (codes "x-A"))
        (codes "9")
        none
        false
      ≡ some (rc_ok, r'))
    × (lines r'.heap (0 ∷ 1 ∷ []) ≡ (codes "X-A", codes "9") ∷ [])
set_header_helper-settle_example =
    set_header_helper-settle sample http 5 response (out_rule opcode_set (codes "x-A")) (codes "9")
      none false both refl walked ((omega arith, tt), (tt, tt)) refl refl (omega arith) refl

set_header_helper-add_example :
    set_header_helper sample http 5 response
      (out_rule opcode_add (codes "x-A"))
      (codes "9")
      none
      false
    ≡ some (rc_ok, response)
set_header_helper-add_example =
    set_header_helper-add sample http 5 response (out_rule opcode_add (codes "x-A")) (codes "9")
      none false both refl walked refl refl

set_header_helper-creates_example :
    (r' : Request) × (set_header_helper sample http 5 response
        (out_rule opcode_add (codes "X-B"))
        (codes "9")
        none
        false
      ≡ some (rc_ok, r'))
    × Added (out_rule opcode_add (codes "X-B")) (codes "9") response [] blank_list r' []
set_header_helper-creates_example =
    set_header_helper-creates sample http 5 response (out_rule opcode_add (codes "X-B")) (codes "9")
      none false [] refl headers-IsList (omega arith) (omega arith) refl refl 2 blank_list longer []
      1 [] refl heap-IsPush refl
