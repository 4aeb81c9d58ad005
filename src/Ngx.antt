-- ===== src/Ngx.antt =====
-- What the module takes from nginx: return codes, counted byte strings, and the string and hash
-- functions of the nginx core as parameters, with their documented behaviour as named laws.
-- Also `ngx_isspace` of ngx_http_headers_control_module.h and `hash_str` of
-- ngx_http_headers_control_util.h.
use ngx_http_headers_control.Common.{
  ℕ, ◌+◌, ◌≤◌, ◌<◌, ◌≡◌, ◌↔◌, Bool, true, ◌&&◌, ◌||◌, Option, List, [], ◌∷◌, map, ◌==◌, leb,
  if◌then◌else◌, length, take,
}

-- An `ngx_str_t`: `len` is the length of the list.
abbrev pub Bytes : Type 0
Bytes = List ℕ

-- NGX_OK, NGX_ERROR and NGX_DECLINED.
pub data Rc : Type 0 where
  rc_ok rc_error rc_declined : Rc

-- `ngx_tolower`, the case folding that the comparisons of nginx document.
abbrev pub to_lower : ℕ → ℕ
to_lower c = if leb b'A' c && leb c b'Z' then c + 32 else c

pub record Ngx : Type 0 where
  -- NGX_INT_T_LEN
  pub int_t_len : ℕ
  -- `ngx_strncasecmp(s1, s2, n) == 0`
  pub strncasecmp : Bytes → Bytes → ℕ → Bool
  -- `ngx_strlow`: what it writes for the bytes that it is given
  pub strlow : Bytes → Bytes
  -- `ngx_hash(key, c)`
  pub hash : ℕ → ℕ → ℕ
  -- `ngx_hash_key_lc`
  pub hash_key_lc : Bytes → ℕ
  -- `ngx_strstrn(s1, s2, n)` and `ngx_strcasestrn(s1, s2, n)`: the offset of the first occurrence
  -- of the `n + 1` bytes of `s2`
  pub strstrn : Bytes → Bytes → ℕ → Option ℕ
  pub strcasestrn : Bytes → Bytes → ℕ → Option ℕ
  -- `ngx_atosz`; `none` for NGX_ERROR
  pub atosz : Bytes → Option ℕ

-- NGX_INT_T_LEN counts bits of a word that exist.
pub record HasWordLength (ngx : Ngx) : Type 0 where
  pub positive : 0 < ngx.int_t_len
  pub in_word : ngx.int_t_len ≤ 64

-- The bytes before the first NUL.
abbrev pub until_nul : Bytes → Bytes
until_nul [] = []
until_nul (c ∷ cs) = if c == 0 then [] else c ∷ until_nul cs

-- `ngx_strncasecmp` compares the first `n` bytes of two strings that have as many, with ASCII
-- letters folded, and ends at a NUL that both have in the same place.
pub record FoldsCase (ngx : Ngx) : Type 0 where
  pub folds :
      (a b : Bytes) (n : ℕ)
      → n ≤ length a
      → n ≤ length b
      → (ngx.strncasecmp a b n ≡ true)
        ↔ (until_nul (map to_lower (take n a)) ≡ until_nul (map to_lower (take n b)))

-- `ngx_strlow` writes the lower case of each byte.
pub record Lowers (ngx : Ngx) : Type 0 where
  pub lowers : (a : Bytes) → ngx.strlow a ≡ map to_lower a

-- `ngx_isspace`: space, tab, CR and LF.
unfoldable pub isspace : ℕ → Bool
isspace c = c == b' ' || c == 9 || c == 13 || c == 10

-- The comparison of two header names that the module writes out wherever it needs one:
-- `a.len == b.len && ngx_strncasecmp(a.data, b.data, a.len) == 0`.
abbrev pub same_key : Ngx → Bytes → Bytes → Bool
same_key ngx a b = length a == length b && ngx.strncasecmp a b (length a)

hash_from : Ngx → ℕ → Bytes → ℕ
hash_from ngx key [] = key
hash_from ngx key (c ∷ src) = hash_from ngx (ngx.hash key c) src

-- `ngx_http_headers_control_hash_str`
unfoldable pub hash_str : Ngx → Bytes → ℕ
unfolding hash_from
hash_str ngx src = hash_from ngx 0 src
