-- ===== src/Condition.antt =====
-- What `exec_input_header` and `exec_output_header` do, word for word the same, before they call
-- the handler of a rule: the condition, the `pass` operation and the value.
use ngx_http_headers_control.Common.{
  Bool, true, false, not, none, some, [], ◌∷◌, ◌==◌, if◌then◌else◌,
}
use ngx_http_headers_control.Ngx.{Bytes, Rc, rc_ok, rc_error, rc_declined}
use ngx_http_headers_control.Rule.{Opcode, opcode_pass, HeaderVal}
use ngx_http_headers_control.Request.{Request, Http}

-- `val.len == 0 || (val.len == 1 && val.data[0] == '0')`
unfoldable pub is_false : Bytes → Bool
is_false [] = true
is_false (c ∷ []) = c == b'0'
is_false _ = false

abbrev is_pass : Opcode → Bool
is_pass opcode_pass = true
is_pass _ = false

-- A value without its last byte, the NUL that `parse_header` put there.
unfoldable pub without_nul : Bytes → Bytes
without_nul [] = []
without_nul (c ∷ []) = []
without_nul (c ∷ d ∷ cs) = c ∷ without_nul (d ∷ cs)

-- Either the rule ends here with a return code, or its handler is called with a value.
pub data Ready : Type 0 where
  returns : Rc → Ready
  calls : Bytes → Ready

module _ (http : Http) {H S : Type 0} (r : Request) (hv : HeaderVal H S) where
  ready_value : Ready
  unfolding without_nul
  ready_value = if is_pass hv.opcode then returns rc_ok else elim (http.complex_value r hv.value) [
    | none ↦ returns rc_error
    | some value ↦ calls (without_nul value)
  ]

  unfoldable pub ready : Ready
  unfolding ready_value is_false
  ready = elim hv.filter [
    | none ↦ ready_value
    | some filter ↦ elim (http.complex_value r filter) [
      | none ↦ returns rc_error
      | some val ↦
          if is_false val
          then if not hv.negative then returns rc_declined else ready_value
          else if hv.negative
          then returns rc_declined
          else ready_value
    ]
  ]
