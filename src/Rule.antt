-- ===== src/Rule.antt =====
-- The data of ngx_http_headers_control_module.h: a parsed rule (`header_val_t`), the table of
-- known headers (`set_header_t`) and the configuration records. A build without ngx_expr_module
-- (`NGX_EXPR`) is modelled, so a rule carries `filter` and `negative`. `H` is the type of the
-- handlers that `handler` points to, and `S` the type of the header slots that `offset` reaches;
-- `none` is the offset 0. A complex value stands for its source text, which is empty if the record
-- was zeroed. `_rt_locked` is written and never read, and is left out.
use ngx_http_headers_control.Common.{ℕ, Bool, ◌≡◌, Option, List, [], ◌∷◌, suc, length}
use ngx_http_headers_control.Ngx.{Bytes}

pub data Opcode : Type 0 where
  opcode_set opcode_clear opcode_add opcode_append opcode_rewrite opcode_pass : Opcode

pub record HeaderVal (H S : Type 0) : Type 0 where
  pub value : Bytes
  pub hash : ℕ
  pub key : Bytes
  pub handler : H
  pub offset : Option S
  pub opcode : Opcode
  pub filter : Option Bytes
  pub negative : Bool
  pub next : Bool
  pub id : ℕ
  pub wildcard : Bool

-- One row of a table of known headers.
pub record SetHeader (H S : Type 0) : Type 0 where
  pub name : Bytes
  pub offset : Option S
  pub handler : H

-- A table: its rows, and the handler of the closing row, whose name is empty.
pub record Handlers (H S : Type 0) : Type 0 where
  pub rows : List (SetHeader H S)
  pub default : H

-- `none` is an array that was not created. The two directions have their own handlers.
pub record LocConf (HI SI HO SO : Type 0) : Type 0 where
  pub headers_in : Option (List (HeaderVal HI SI))
  pub headers_out : Option (List (HeaderVal HO SO))
  pub headers_in_cnt : ℕ
  pub headers_out_cnt : ℕ

pub record MainConf : Type 0 where
  pub postponed_to_phase_end : Bool
  pub requires_filter : Bool
  pub requires_handler : Bool

-- Rule ids are positions, counted from `k`: what the bitmaps of the rule loops rely on.
abbrev pub IndexedFrom : {H S : Type 0} → ℕ → List (HeaderVal H S) → Type 0
IndexedFrom k [] = Unit
IndexedFrom k (h ∷ hs) = (h.id ≡ k) × IndexedFrom (suc k) hs

-- An array and its counter as the directives and the merge leave them.
pub record IsIndexed {H S : Type 0} (hs : List (HeaderVal H S)) (cnt : ℕ) : Type 0 where
  pub ids : IndexedFrom 0 hs
  pub counted : cnt ≡ length hs
