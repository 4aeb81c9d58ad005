-- ===== src/Output/ContentType.antt =====
-- `set_content_type_header` of ngx_http_headers_control_headers_out.c: the search for a charset
-- parameter, and the handler.
pub mod Charset
use ngx_http_headers_control.Common.{
  ℕ, suc, ◌+◌, ◌-◌, ◌^◌, ◌%◌, Bool, true, false, not, ◌&&◌, Option, none, some, [], ◌∷◌, ◌==◌, ltb,
  if◌then◌else◌, length, drop,
}
use ngx_http_headers_control.Ngx.{Bytes, Ngx, Rc}
use ngx_http_headers_control.Request.{HeadersOut, Request, Http}
use ngx_http_headers_control.Output.{OutRule, set_header_helper}

-- Where the loop stands: looking for `;`, or behind the `;` at an offset and its blanks.
pub data Seek : Type 0 where
  seeking : Seek
  behind : ℕ → Seek

-- "charset="
abbrev pub charset_word : Bytes
charset_word = b'c' ∷ b'h' ∷ b'a' ∷ b'r' ∷ b's' ∷ b'e' ∷ b't' ∷ b'=' ∷ []

module _ (ngx : Ngx) where
  abbrev at_charset : Bytes → Bool
  at_charset p = not (ltb (length p) 8) && ngx.strncasecmp p charset_word 8

  -- The loop from an offset: the offset of the `;` and the bytes behind `charset=`, if there are
  -- such. A byte behind the blanks that starts no charset is passed over.
  pub find_charset : Seek → ℕ → Bytes → Option (ℕ × Bytes)
  find_charset state p [] = none
  find_charset seeking p (c ∷ cs) =
      find_charset (if c == b';' then behind p else seeking) (suc p) cs
  find_charset (behind last) p (c ∷ cs) =
      let blank = find_charset (behind last) (suc p) cs in
      let other = find_charset seeking (suc p) cs in
      if c == b' '
      then blank
      else if at_charset (c ∷ cs)
      then some (last, drop 8 (c ∷ cs))
      else other

abbrev is_quote : Bytes → Bool
is_quote [] = false
is_quote (c ∷ cs) = c == b'"'

-- `*(last - 1) == '"'` at the end of a value that is not empty
abbrev pub ends_quote : Bytes → Bool
ends_quote [] = false
ends_quote (c ∷ []) = c == b'"'
ends_quote (c ∷ d ∷ cs) = ends_quote (d ∷ cs)

-- The quotes are taken off; `charset.len` is the difference of two pointers.
pub set_charset : Bytes → (last : ℕ) → Bytes → HeadersOut → HeadersOut
set_charset value last rest ho =
    let p = if is_quote rest then drop 1 rest else rest in
    record ho {
      content_type_len = last;
      charset_len = (length p + 2 ^ 64 - (if ends_quote value then 1 else 0)) % 2 ^ 64;
      charset = p;
    }

-- What the handler writes before it clears the header line.
unfoldable pub content_type_fields : Ngx → OutRule → Bytes → HeadersOut → HeadersOut
unfolding find_charset set_charset
content_type_fields ngx hv value ho =
    let ho' = record ho {
      content_type_len = length value;
      content_type = value;
      content_type_hash = hv.hash;
      content_type_lowcase = none;
    } in
    elim (find_charset ngx seeking 0 value) [
      | none ↦ ho'
      | some (last, rest) ↦ set_charset value last rest ho'
    ]

unfoldable pub set_content_type_header_out :
    Ngx → Http → ℕ → Request → OutRule → Bytes → Option (Rc × Request)
set_content_type_header_out ngx http fuel r hv value =
    set_header_helper ngx http fuel
      (record r { headers_out = content_type_fields ngx hv value r.headers_out }) hv [] none true
