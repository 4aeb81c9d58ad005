-- ===== src/Input/Exec.antt =====
-- The table of request headers, of a build with NGX_HTTP_GZIP, NGX_HTTP_X_FORWARDED_FOR,
-- NGX_HTTP_REALIP and NGX_HTTP_DAV, and `exec_input_header`.
use Prim.Native.Char.{code}
use Prim.Native.String.{String}
use ngx_http_headers_control.Common.{ℕ, Option, some, [], ◌∷◌}
use ngx_http_headers_control.Ngx.{Bytes, Ngx, Rc}
use ngx_http_headers_control.Rule.{SetHeader, Handlers}
use ngx_http_headers_control.Condition.{Ready, returns, calls, ready}
use ngx_http_headers_control.Request.{
  InSlot, in_host, in_connection, in_if_modified_since, in_if_unmodified_since, in_if_match,
  in_if_none_match, in_user_agent, in_referer, in_content_length, in_content_type, in_range,
  in_if_range, in_transfer_encoding, in_expect, in_upgrade, in_accept_encoding, in_via,
  in_authorization, in_keep_alive, in_x_forwarded_for, in_x_real_ip, in_depth, in_destination,
  in_overwrite, in_date, in_cookie, Request, Http,
}
use ngx_http_headers_control.Input.{
  InHandler, set_header, set_builtin_header, set_host_header, set_connection_header,
  set_user_agent_header, set_content_length_header, set_builtin_multi_header, InRule, nowhere,
  set_header_helper_in,
}
use ngx_http_headers_control.Input.Setters
use ngx_http_headers_control.Input.Setters.{
  drop_written, set_builtin_header_in, set_content_length_header_in, set_builtin_multi_header_in,
}
use ngx_http_headers_control.Input.Agent.{set_user_agent_header_in}

abbrev codes : String → Bytes
codes String.[] = []
codes (String.◌∷◌ c s) = code c ∷ codes s

abbrev row : String → InSlot → InHandler → SetHeader InHandler InSlot
row name offset handler = record { name = codes name; offset = some offset; handler = handler }

-- `ngx_http_headers_control_set_handlers`
abbrev pub in_handlers : Handlers InHandler InSlot
in_handlers = record {
  rows =
      row "Host" in_host set_host_header
      ∷ row "Connection" in_connection set_connection_header
      ∷ row "If-Modified-Since" in_if_modified_since set_builtin_header
      ∷ row "If-Unmodified-Since" in_if_unmodified_since set_builtin_header
      ∷ row "If-Match" in_if_match set_builtin_header
      ∷ row "If-None-Match" in_if_none_match set_builtin_header
      ∷ row "User-Agent" in_user_agent set_user_agent_header
      ∷ row "Referer" in_referer set_builtin_header
      ∷ row "Content-Length" in_content_length set_content_length_header
      ∷ row "Content-Type" in_content_type set_builtin_header
      ∷ row "Range" in_range set_builtin_header
      ∷ row "If-Range" in_if_range set_builtin_header
      ∷ row "Transfer-Encoding" in_transfer_encoding set_builtin_header
      ∷ row "Expect" in_expect set_builtin_header
      ∷ row "Upgrade" in_upgrade set_builtin_header
      ∷ row "Accept-Encoding" in_accept_encoding set_builtin_header
      ∷ row "Via" in_via set_builtin_header
      ∷ row "Authorization" in_authorization set_builtin_header
      ∷ row "Keep-Alive" in_keep_alive set_builtin_header
      ∷ row "X-Forwarded-For" in_x_forwarded_for set_builtin_multi_header
      ∷ row "X-Real-IP" in_x_real_ip set_builtin_header
      ∷ row "Depth" in_depth set_builtin_header
      ∷ row "Destination" in_destination set_builtin_header
      ∷ row "Overwrite" in_overwrite set_builtin_header
      ∷ row "Date" in_date set_builtin_header
      ∷ row "Cookie" in_cookie set_builtin_multi_header
      ∷ [];
  default = set_header;
}

module _ (ngx : Ngx) (http : Http) where
  -- `hv->handler(r, hv, &value)`
  pub call_handler_in : InHandler → ℕ → Request → InRule → Bytes → Option (Rc × Request)
  call_handler_in set_header fuel r hv value =
      drop_written (set_header_helper_in ngx http fuel r hv value nowhere)
  call_handler_in set_builtin_header fuel r hv value =
      set_builtin_header_in ngx http fuel r hv value
  call_handler_in set_host_header fuel r hv value = Setters.set_host_header ngx http fuel r hv value
  call_handler_in set_connection_header fuel r hv value =
      Setters.set_connection_header ngx http fuel r hv value
  call_handler_in set_user_agent_header fuel r hv value =
      set_user_agent_header_in ngx http fuel r hv value
  call_handler_in set_content_length_header fuel r hv value =
      set_content_length_header_in ngx http fuel r hv value
  call_handler_in set_builtin_multi_header fuel r hv value =
      set_builtin_multi_header_in ngx http fuel r hv value

  run_ready : ℕ → Request → InRule → Ready → Option (Rc × Request)
  unfolding call_handler_in
  run_ready fuel r hv (returns rc) = some (rc, r)
  run_ready fuel r hv (calls value) = call_handler_in hv.handler fuel r hv value

  -- `exec_input_header`
  unfoldable pub exec_input_header : ℕ → Request → InRule → Option (Rc × Request)
  unfolding run_ready
  exec_input_header fuel r hv = run_ready fuel r hv (ready http r hv)
