-- ===== src/Input/Agent.antt =====
-- `set_user_agent_header` of ngx_http_headers_control_headers_in.c: the browser flags of a request.
pub mod Browser
use ngx_http_headers_control.Common.{
  ℕ, ◌+◌, Bool, true, false, not, ◌&&◌, ◌||◌, Option, none, some, [], ◌∷◌, ◌==◌, ltb, if◌then◌else◌,
  length, get_or, drop,
}
use ngx_http_headers_control.Ngx.{Bytes, Ngx, Rc}
use ngx_http_headers_control.Request.{HeadersIn, Request, Http}
use ngx_http_headers_control.Input.{InRule}
use ngx_http_headers_control.Input.Setters.{set_builtin_header_in}
use Prim.Native.Char.{code}
use Prim.Native.String.{String}

abbrev codes : String → Bytes
codes String.[] = []
codes (String.◌∷◌ c s) = code c ∷ codes s

abbrev clear_flags : HeadersIn → HeadersIn
clear_flags hi = record hi {
  msie = false;
  msie6 = false;
  opera = false;
  gecko = false;
  chrome = false;
  safari = false;
  konqueror = false;
}

module _ (ngx : Ngx) where
  abbrev has : Bytes → String → ℕ → Bool
  has value word n = elim (ngx.strstrn value (codes word) n) [ none ↦ false | some _ ↦ true ]

  -- Behind an "MSIE " at offset `m`: versions 4 and 5, and 6 without "SV1".
  msie_six : Bytes → ℕ → Bool
  msie_six value m =
      get_or value (m + 6) 0 == b'.'
      && (get_or value (m + 5) 0 == b'4'
          || get_or value (m + 5) 0 == b'5'
          || (get_or value (m + 5) 0 == b'6' && not (has (drop (m + 8) value) "SV1" 2)))

  flag_msie : Bytes → Option ℕ → HeadersIn → HeadersIn
  unfolding msie_six
  flag_msie value none hi = hi
  flag_msie value (some m) hi =
      if ltb (m + 7) (length value)
      then record hi { msie = true; msie6 = msie_six value m || hi.msie6 }
      else hi

  flag_opera : Bytes → HeadersIn → HeadersIn
  flag_opera value hi =
      if has value "Opera" 4 then record hi { opera = true; msie = false; msie6 = false } else hi

  flag_others : Bytes → HeadersIn → HeadersIn
  flag_others value hi =
      if not hi.msie && not hi.opera
      then (if has value "Gecko/" 5
          then record hi { gecko = true }
          else if has value "Chrome/" 6
          then record hi { chrome = true }
          else if has value "Safari/" 6 && has value "Mac OS X" 7
          then record hi { safari = true }
          else if has value "Konqueror" 8
          then record hi { konqueror = true }
          else hi)
      else hi

  unfoldable pub agent_fields : Bytes → HeadersIn → HeadersIn
  unfolding flag_msie flag_opera flag_others
  agent_fields value hi =
      if length value == 0
      then clear_flags hi
      else flag_others value (
          flag_opera value (flag_msie value (ngx.strstrn value (codes "MSIE ") 4) (clear_flags hi)))

-- `set_user_agent_header`
unfoldable pub set_user_agent_header_in :
    Ngx → Http → ℕ → Request → InRule → Bytes → Option (Rc × Request)
set_user_agent_header_in ngx http fuel r hv value =
    set_builtin_header_in ngx http fuel
      (record r { headers_in = agent_fields ngx value r.headers_in }) hv value
