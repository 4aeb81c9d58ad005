-- ===== src/Output/Exec.antt =====
-- The table of response headers and `exec_output_header`.
use ngx_http_headers_control.Common.{ℕ, false, Option, none, some, [], ◌∷◌}
use Prim.Native.Char.{code}
use Prim.Native.String.{String}
use ngx_http_headers_control.Ngx.{Bytes, Ngx, Rc}
use ngx_http_headers_control.Rule.{SetHeader, Handlers}
use ngx_http_headers_control.Condition.{Ready, returns, calls, ready}
use ngx_http_headers_control.Request.{
  OutSlot, out_server, out_date, out_content_encoding, out_location, out_refresh, out_last_modified,
  out_content_range, out_accept_ranges, out_www_authenticate, out_expires, out_etag,
  out_content_length, out_cache_control, Request, Http,
}
use ngx_http_headers_control.Output.{
  OutHandler, set_header, set_builtin_header, set_accept_ranges_header, set_content_length_header,
  set_content_type_header, set_builtin_multi_header, OutRule, set_header_helper,
}
use ngx_http_headers_control.Output.Setters.{
  set_builtin_header_out, set_builtin_multi_header_out, set_accept_ranges_header_out,
  set_content_length_header_out,
}
use ngx_http_headers_control.Output.ContentType.{set_content_type_header_out}

abbrev codes : String → Bytes
codes String.[] = []
codes (String.◌∷◌ c s) = code c ∷ codes s

abbrev row : String → Option OutSlot → OutHandler → SetHeader OutHandler OutSlot
row name offset handler = record { name = codes name; offset = offset; handler = handler }

-- `ngx_http_headers_control_set_handlers`
abbrev pub out_handlers : Handlers OutHandler OutSlot
out_handlers = record {
  rows =
      row "Server" (some out_server) set_builtin_header
      ∷ row "Date" (some out_date) set_builtin_header
      ∷ row "Content-Encoding" (some out_content_encoding) set_builtin_header
      ∷ row "Location" (some out_location) set_builtin_header
      ∷ row "Refresh" (some out_refresh) set_builtin_header
      ∷ row "Last-Modified" (some out_last_modified) set_builtin_header
      ∷ row "Content-Range" (some out_content_range) set_builtin_header
      ∷ row "Accept-Ranges" (some out_accept_ranges) set_accept_ranges_header
      ∷ row "WWW-Authenticate" (some out_www_authenticate) set_builtin_header
      ∷ row "Expires" (some out_expires) set_builtin_header
      ∷ row "E-Tag" (some out_etag) set_builtin_header
      ∷ row "Content-Length" (some out_content_length) set_content_length_header
      ∷ row "Content-Type" none set_content_type_header
      ∷ row "Cache-Control" (some out_cache_control) set_builtin_multi_header
      ∷ [];
  default = set_header;
}

module _ (ngx : Ngx) (http : Http) where
  -- `hv->handler(r, hv, &value)`
  pub call_handler_out : OutHandler → ℕ → Request → OutRule → Bytes → Option (Rc × Request)
  call_handler_out set_header fuel r hv value =
      set_header_helper ngx http fuel r hv value none false
  call_handler_out set_builtin_header fuel r hv value =
      set_builtin_header_out ngx http fuel r hv value
  call_handler_out set_accept_ranges_header fuel r hv value =
      set_accept_ranges_header_out ngx http fuel r hv value
  call_handler_out set_content_length_header fuel r hv value =
      set_content_length_header_out ngx http fuel r hv value
  call_handler_out set_content_type_header fuel r hv value =
      set_content_type_header_out ngx http fuel r hv value
  call_handler_out set_builtin_multi_header fuel r hv value =
      set_builtin_multi_header_out ngx http fuel r hv value

  run_ready : ℕ → Request → OutRule → Ready → Option (Rc × Request)
  unfolding call_handler_out
  run_ready fuel r hv (returns rc) = some (rc, r)
  run_ready fuel r hv (calls value) = call_handler_out hv.handler fuel r hv value

  -- `exec_output_header`
  unfoldable pub exec_output_header : ℕ → Request → OutRule → Option (Rc × Request)
  unfolding run_ready
  exec_output_header fuel r hv = run_ready fuel r hv (ready http r hv)
