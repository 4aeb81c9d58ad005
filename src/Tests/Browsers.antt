-- ===== src/Tests/Browsers.antt =====
-- Values of User-Agent.
use ngx_http_headers_control.Common.{◌≤◌, ◌≡◌, refl, true, false, not, ◌&&◌, [], ◌∷◌}
use ngx_http_headers_control.Request.{HeadersIn}
use ngx_http_headers_control.Input.Agent.{agent_fields}
use ngx_http_headers_control.Input.Agent.Browser.{families, count, agent_fields-one}
use ngx_http_headers_control.Tests.Sample.{codes, sample}
use ngx_http_headers_control.Tests.Rules.{request}

abbrev before : HeadersIn
before = (request []).headers_in

abbrev after : HeadersIn
after = agent_fields sample (codes "Mozilla (MSIE 6.0; X) Opera Gecko/") before

opera_wins : families after ≡ false ∷ true ∷ false ∷ false ∷ false ∷ false ∷ []
unfolding agent_fields
opera_wins = refl

agent_fields-one_example : (count (families after) ≤ 1) × ((after.msie6 && not after.msie) ≡ false)
agent_fields-one_example =
    agent_fields-one sample (codes "Mozilla (MSIE 6.0; X) Opera Gecko/") before
