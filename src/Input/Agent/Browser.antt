-- ===== src/Input/Agent/Browser.antt =====
-- The browser flags that `set_user_agent_header` leaves.
use ngx_http_headers_control.Common.{
  ℕ, suc, ◌≤◌, ◌≡◌, inl, inr, Bool, true, false, not, ◌&&◌, Option, none, some, List, [], ◌∷◌, ◌==◌,
  length, Bool-cases, arith,
}
use ngx_http_headers_control.Ngx.{Bytes, Ngx}
use ngx_http_headers_control.Request.{HeadersIn}
use ngx_http_headers_control.Input.Agent.{
  clear_flags, codes, flag_msie, flag_opera, flag_others, agent_fields,
}

-- The flag of the browser families.
abbrev pub families : HeadersIn → List Bool
families hi = hi.msie ∷ hi.opera ∷ hi.gecko ∷ hi.chrome ∷ hi.safari ∷ hi.konqueror ∷ []

abbrev pub count : List Bool → ℕ
count [] = 0
count (true ∷ bs) = suc (count bs)
count (false ∷ bs) = count bs

-- Behind the first two steps: no other family, not both of msie and opera, msie6 only with msie.
abbrev Early : HeadersIn → Type 0
Early hi =
    (hi.gecko ≡ false)
    × ((hi.chrome ≡ false)
        × ((hi.safari ≡ false)
            × ((hi.konqueror ≡ false)
                × (((hi.msie && hi.opera) ≡ false) × ((hi.msie6 && not hi.msie) ≡ false)))))

module _ (ngx : Ngx) (value : Bytes) where
  flag_msie-Early :
      (found : Option ℕ) (hi : HeadersIn)
      → Early (flag_msie ngx value found (clear_flags hi))
        × ((flag_msie ngx value found (clear_flags hi)).opera ≡ false)
  unfolding flag_msie
  flag_msie-Early none hi = ground arith
  flag_msie-Early (some m) hi = ground arith

  flag_opera-Early :
      (hi : HeadersIn) → Early hi → hi.opera ≡ false → Early (flag_opera ngx value hi)
  unfolding flag_opera
  flag_opera-Early hi e off = ground arith

  flag_others-one :
      (hi : HeadersIn)
      → Early hi
      → (count (families (flag_others ngx value hi)) ≤ 1)
        × (((flag_others ngx value hi).msie6 && not (flag_others ngx value hi).msie) ≡ false)
  unfolding flag_others
  flag_others-one hi e = ground arith

  -- A value of User-Agent sets the flag of at most one browser family, whatever was set before,
  -- and msie6 only together with msie.
  pub agent_fields-one :
      (hi : HeadersIn)
      → (count (families (agent_fields ngx value hi)) ≤ 1)
        × (((agent_fields ngx value hi).msie6 && not (agent_fields ngx value hi).msie) ≡ false)
  unfolding agent_fields
  agent_fields-one hi = elim (Bool-cases (length value == 0)) [
    | inl empty ↦ rw empty (ground arith)
    | inr filled ↦
        let early = flag_msie-Early (ngx.strstrn value (codes "MSIE ") 4) hi in
        rw filled (flag_others-one _ (flag_opera-Early _ early.0 early.1))
  ]
