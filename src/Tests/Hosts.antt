-- ===== src/Tests/Hosts.antt =====
-- Hosts.
use ngx_http_headers_control.Common.{◌≡◌, refl, true, false, arith}
use ngx_http_headers_control.Host.{valid, declined, validate_host}
use ngx_http_headers_control.Host.Grammar.{host_grammar}
use ngx_http_headers_control.Host.Accepts.{validate_host-host_grammar}
use ngx_http_headers_control.Tests.Sample.{codes, sample, sample-Lowers}

port_dropped :
    validate_host sample true (codes "Example.com.:8080") false ≡ valid (codes "example.com")
unfolding validate_host
port_dropped = refl

literal_kept : validate_host sample true (codes "[::1]:65535") false ≡ valid (codes "[::1]")
unfolding validate_host
literal_kept = refl

port_too_big : validate_host sample true (codes "a:65536") false ≡ declined
unfolding validate_host
port_too_big = refl

validate_host-host_grammar_example :
    validate_host sample true (codes "A..b") false ≡ host_grammar (codes "A..b")
validate_host-host_grammar_example =
    validate_host-host_grammar sample sample-Lowers (codes "A..b") false (omega arith)
