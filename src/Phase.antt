-- ===== src/Phase.antt =====
-- The module's entry points in ngx_http_headers_control_module.c: the header filter, the rewrite
-- handler with its move to the end of the phase, and the configuration callbacks. `none` is an
-- access through a null pointer or outside an array, or a search that ran out of fuel.
pub mod Postpone
pub mod Entry
use ngx_http_headers_control.Common.{
  ℕ, zero, suc, ◌+◌, ◌-◌, Bool, true, false, not, ◌||◌, Option, none, some, List, [], ◌∷◌, ◌++◌,
  ◌==◌, ltb, if◌then◌else◌, get_elem?, set, take, drop, ◌>>=◌,
}
use ngx_http_headers_control.Ngx.{Bytes, Ngx, Rc, rc_ok, rc_error, rc_declined, hash_str}
use ngx_http_headers_control.Bitmap.{Bitmap, bitmap_init}
use ngx_http_headers_control.Rule.{LocConf, MainConf}
use ngx_http_headers_control.Chain.{Pass, fault, failed, through, run_rules}
use ngx_http_headers_control.Request.{InSlot, OutSlot, Request, palloc, Http}
use ngx_http_headers_control.Output.{OutHandler, OutRule}
use ngx_http_headers_control.Output.Exec.{exec_output_header}
use ngx_http_headers_control.Input.{InHandler, InRule}
use ngx_http_headers_control.Input.Exec.{exec_input_header}

abbrev pub Conf : Type 0
Conf = LocConf InHandler InSlot OutHandler OutSlot

-- `ngx_http_phase_handler_t`; a number stands for a function.
pub record PhaseHandler : Type 0 where
  pub checker : ℕ
  pub handler : ℕ
  pub next : ℕ

-- The handlers of all phases, and `r->phase_handler`, where `none` is -1.
pub record Engine : Type 0 where
  pub handlers : List PhaseHandler
  pub phase_handler : Option ℕ

abbrev pub decrement : ℕ → Option ℕ
decrement zero = none
decrement (suc n) = some n

-- `memmove(&a[dst], &a[src], n * sizeof(a[0]))`
abbrev pub memmove : {A : Type 0} → List A → (dst src n : ℕ) → List A
memmove a dst src n = take dst a ++ (take n (drop src a) ++ drop (dst + n) a)

-- The current handler moves to the place of the last one of its phase.
pub rotate : Engine → (cur last : ℕ) → PhaseHandler → Engine
rotate engine cur last tmp = record {
  handlers = set (memmove engine.handlers cur (cur + 1) (last - cur)) last tmp;
  phase_handler = decrement cur;
}

-- The first request: `true` if the handler has moved and returns.
postpone_at : MainConf → Engine → Option ℕ → Option (Bool × MainConf × Engine)
unfolding rotate
postpone_at hmcf engine none = none
postpone_at hmcf engine (some cur) = do
  ph ← get_elem? engine.handlers cur
  let hmcf = record hmcf { postponed_to_phase_end = true }
  let last = ph.next - 1
  if ltb cur last then some (true, hmcf, rotate engine cur last ph) else some (false, hmcf, engine)

unfoldable pub postpone : MainConf → Engine → Option (Bool × MainConf × Engine)
unfolding postpone_at
postpone hmcf engine =
    if not hmcf.postponed_to_phase_end
    then postpone_at hmcf engine engine.phase_handler
    else some (false, hmcf, engine)

abbrev pub is_granted : Option ℕ → Bool
is_granted none = false
is_granted (some _) = true

-- `bitmap_init(&locked, cnt, r->pool)`
abbrev pub init_locked : Ngx → ℕ → Request → Bitmap × Request
init_locked ngx cnt r =
    let (answer, r') = palloc r in (bitmap_init ngx.int_t_len (is_granted answer) cnt, r')

module _ (ngx : Ngx) (http : Http) (fuel : ℕ) where
  -- What the filter returns after its loop.
  abbrev pub filter_end : Pass Request → Option (Rc × Request)
  filter_end fault = none
  filter_end (failed r) = some (rc_error, r)
  filter_end (through r) = some (http.next_header_filter r)

  unfoldable pub filter_rules : Option (List OutRule) → ℕ → Request → Option (Rc × Request)
  filter_rules none cnt r = some (http.next_header_filter r)
  filter_rules (some rules) cnt r =
      let (locked, r') = init_locked ngx cnt r in
      filter_end (run_rules ngx (exec_output_header ngx http fuel) locked [] rules r')

  -- `ngx_http_headers_control_filter`
  unfoldable pub filter : Conf → Request → Option (Rc × Request)
  unfolding filter_rules
  filter conf r = filter_rules conf.headers_out conf.headers_out_cnt r

  abbrev pub handler_end : Pass Request → Option (Rc × Request)
  handler_end fault = none
  handler_end (failed r) = some (rc_error, r)
  handler_end (through r) = some (rc_declined, r)

  -- The rewrite handler behind its move. The version is that of nginx, 1000 for HTTP/1.0.
  unfoldable pub handle_rules : Option (List InRule) → ℕ → Request → Option (Rc × Request)
  handle_rules none cnt r = some (rc_declined, r)
  handle_rules (some rules) cnt r =
      if ltb r.http_version 1000
      then some (rc_declined, r)
      else (let (locked, r') = init_locked ngx cnt r in
          handler_end (run_rules ngx (exec_input_header ngx http fuel) locked [] rules r'))

  -- `ngx_http_headers_control_handler`
  unfoldable pub handler :
      Conf → MainConf → Engine → Request → Option (Rc × Request × MainConf × Engine)
  unfolding handle_rules
  handler conf hmcf engine r = do
    (moved, hmcf, engine) ← postpone hmcf engine
    if moved then some (rc_declined, r, hmcf, engine) else (do
      (rc, r) ← handle_rules conf.headers_in conf.headers_in_cnt r
      some (rc, r, hmcf, engine))

-- `create_loc_conf` and `create_main_conf`: zeroed memory, or NULL.
pub create_loc_conf : Bool → Option Conf
create_loc_conf granted =
    if granted
    then some
        (record { headers_in = none; headers_out = none; headers_in_cnt = 0; headers_out_cnt = 0 })
    else none

pub create_main_conf : Bool → Option MainConf
create_main_conf granted =
    if granted
    then some (record {
      postponed_to_phase_end = false;
      requires_filter = false;
      requires_handler = false;
    })
    else none

-- What the chains of nginx hold: this module's function, or another one.
pub data Function : Type 0 where
  headers_control_filter headers_control_handler : Function
  other_function : ℕ → Function

-- The static variables of the module and the chains of nginx; `none` is NULL.
pub record Globals : Type 0 where
  pub location_hash : ℕ
  pub prev_cycle : Option ℕ
  pub top_header_filter : Option Function
  pub next_header_filter : Option Function
  pub rewrite_handlers : List Function

pub filter_init : Globals → Globals
filter_init g = record g {
  next_header_filter = g.top_header_filter;
  top_header_filter = some headers_control_filter;
}

abbrev same_cycle : Option ℕ → ℕ → Bool
same_cycle none cycle = false
same_cycle (some c) cycle = c == cycle

-- `post_config`. `cycle` is `ngx_cycle`, and `pushed` the answer of `ngx_array_push`.
unfoldable pub post_config : Ngx → (pushed : Bool) (cycle : ℕ) → MainConf → Globals → Rc × Globals
unfolding filter_init
post_config ngx pushed cycle hmcf g =
    let multi_http_blocks = same_cycle g.prev_cycle cycle in
    let g' = record g {
      location_hash = hash_str ngx (b'l' ∷ b'o' ∷ b'c' ∷ b'a' ∷ b't' ∷ b'i' ∷ b'o' ∷ b'n' ∷ []);
      prev_cycle = some cycle;
    } in
    let g'' = if multi_http_blocks || hmcf.requires_filter then filter_init g' else g' in
    if not hmcf.requires_handler
    then (rc_ok, g'')
    else if pushed
    then (
      rc_ok,
      record g'' { rewrite_handlers = g''.rewrite_handlers ++ headers_control_handler ∷ [] },
    )
    else (rc_error, g'')
