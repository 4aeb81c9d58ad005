-- ===== src/Tests/Sample.antt =====
-- An nginx core to run with: its string functions by their documentation, and the NGX_INT_T_LEN of
-- a 64-bit build, which is 20.
use Prim.Native.Char.{code}
use Prim.Native.String.{String}
use ngx_http_headers_control.Common.{
  ℕ, suc, ◌+◌, ◌*◌, Option, none, some, [], ◌∷◌, map, take, if◌then◌else◌, arith, refl,
}
use ngx_http_headers_control.Ngx.{Bytes, Ngx, HasWordLength, FoldsCase, Lowers, to_lower, until_nul}
use ngx_http_headers_control.Directive.Words.{bytes_eq, bytes_eq_iff}

-- The bytes of an ASCII text.
abbrev pub codes : String → Bytes
codes String.[] = []
codes (String.◌∷◌ c s) = code c ∷ codes s

abbrev later : Option ℕ → Option ℕ
later none = none
later (some m) = some (suc m)

-- Where the first `n + 1` bytes of `s2` occur.
abbrev pub find : Bytes → Bytes → ℕ → Option ℕ
find [] s2 n = none
find (c ∷ s1) s2 n =
    let rest = find s1 s2 n in
    if bytes_eq (take (suc n) (c ∷ s1)) (take (suc n) s2) then some 0 else later rest

abbrev pub sample : Ngx
sample = record {
  int_t_len = 20;
  strncasecmp =
      λ a b n. bytes_eq (until_nul (map to_lower (take n a))) (until_nul (map to_lower (take n b)));
  strlow = λ a. map to_lower a;
  hash = λ key c. key * 31 + c;
  hash_key_lc = λ key. 7;
  strstrn = find;
  strcasestrn = λ s1 s2 n. find (map to_lower s1) s2 n;
  atosz = λ s. none;
}

pub sample-HasWordLength : HasWordLength sample
sample-HasWordLength = record { positive = omega arith; in_word = omega arith }

pub sample-FoldsCase : FoldsCase sample
sample-FoldsCase = record { folds = λ a b n le le'. bytes_eq_iff _ _ }

pub sample-Lowers : Lowers sample
sample-Lowers = record { lowers = λ a. refl }
