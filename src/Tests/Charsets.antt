-- ===== src/Tests/Charsets.antt =====
-- Values of Content-Type.
use ngx_http_headers_control.Common.{◌-◌, ◌^◌, ◌≡◌, refl, false, [], take, arith}
use ngx_http_headers_control.Ngx.{Bytes}
use ngx_http_headers_control.Rule.{opcode_set}
use ngx_http_headers_control.Request.{HeadersOut}
use ngx_http_headers_control.Output.{OutRule, set_header}
use ngx_http_headers_control.Output.ContentType.{content_type_fields}
use ngx_http_headers_control.Output.ContentType.Charset.{
  content_type_fields-charset, content_type_fields-quoted, content_type_fields-lone_quote,
}
use ngx_http_headers_control.Tests.Sample.{codes, sample, sample-FoldsCase}
use ngx_http_headers_control.Tests.Rules.{rule, request}

abbrev before : HeadersOut
before = (request []).headers_out

abbrev hv : OutRule
hv = rule set_header opcode_set (codes "Content-Type") 0 false

abbrev after : Bytes → HeadersOut
after value = content_type_fields sample hv value before

content_type_fields-charset_example :
    ((after (codes "text/css; charset=utf-8")).content_type_len ≡ 8)
    × ((after (codes "text/css; charset=utf-8")).charset ≡ codes "utf-8")
    × ((after (codes "text/css; charset=utf-8")).charset_len ≡ 5)
content_type_fields-charset_example =
    content_type_fields-charset sample sample-FoldsCase hv before (codes "text/css") 1
      (codes "utf-8") refl refl refl (omega arith)

content_type_fields-quoted_example :
    ((after (codes "text/css;  charset=\"utf-8\"")).content_type_len ≡ 8)
    × (take
          (after (codes "text/css;  charset=\"utf-8\"")).charset_len
          (after (codes "text/css;  charset=\"utf-8\"")).charset
        ≡ codes "utf-8")
    × ((after (codes "text/css;  charset=\"utf-8\"")).charset_len ≡ 5)
content_type_fields-quoted_example =
    content_type_fields-quoted sample sample-FoldsCase hv before (codes "text/css") 2
      (codes "utf-8") refl (omega arith)

content_type_fields-lone_quote_example :
    (after (codes "text/css;charset=\"")).charset_len ≡ 2 ^ 64 - 1
content_type_fields-lone_quote_example =
    content_type_fields-lone_quote sample sample-FoldsCase hv before (codes "text/css") 0 refl
