-- ===== src/Host/Ends.antt =====
-- The variables with which the machine leaves a registered name, read off the name.
use native.Mathlib.Nat.{add-zero}
use ngx_http_headers_control.Common.{
  ℕ, suc, ◌+◌, ◌-◌, ◌≡◌, inl, inr, refl, ◌∙◌, Bool, false, ◌||◌, [], ◌∷◌, ◌++◌, map, arith, ◌==◌,
  if◌then◌else◌, Bool-cases, length, take,
}
use ngx_http_headers_control.Ngx.{Bytes, to_lower}
use ngx_http_headers_control.Host.{pred_size, is_upper, in_literal}
use ngx_http_headers_control.Host.Grammar.{before_byte, from_byte, strip_dot}
use ngx_http_headers_control.Host.Name.{name_end, DotAt, DotAt-next}

abbrev pub any_upper : Bytes → Bool
any_upper [] = false
any_upper (c ∷ cs) = is_upper c || any_upper cs

-- Whether the last byte is a dot; of no bytes, whether a dot stands in front.
abbrev pub ends_dot : Bool → Bytes → Bool
ends_dot dotted [] = dotted
ends_dot dotted (c ∷ cs) = ends_dot (c == b'.') cs

module _ (l : ℕ) where
  pub name_end-in_literal :
      (i d : ℕ) (a : Bool) (cs : Bytes) → in_literal (name_end i d l a cs).state ≡ false
  name_end-in_literal i d a [] = refl
  name_end-in_literal i d a (c ∷ cs) = elim (Bool-cases (c == b':')) [
    | inl colon ↦ rw colon
    | inr other ↦
        rw other (name_end-in_literal (suc i) (if c == b'.' then i else d) (a || is_upper c) cs)
  ]

  pub name_end-host_len :
      (i d : ℕ) (a : Bool) (cs : Bytes)
      → i + length cs ≡ l
      → (name_end i d l a cs).host_len ≡ i + length (before_byte b':' cs)
  name_end-host_len i d a [] e = omega arith
  name_end-host_len i d a (c ∷ cs) e = elim (Bool-cases (c == b':')) [
    | inl colon ↦ rw colon (omega arith)
    | inr other ↦ rw other (
        name_end-host_len (suc i) (if c == b'.' then i else d) (a || is_upper c) cs (omega arith)
        ∙ omega arith)
  ]

  pub name_end-alloc :
      (i d : ℕ) (a : Bool) (cs : Bytes)
      → (name_end i d l a cs).alloc ≡ a || any_upper (before_byte b':' cs)
  name_end-alloc i d a [] = ground arith
  name_end-alloc i d a (c ∷ cs) = elim (Bool-cases (c == b':')) [
    | inl colon ↦ rw colon (ground arith)
    | inr other ↦
        rw other
          (name_end-alloc (suc i) (if c == b'.' then i else d) (a || is_upper c) cs ∙ ground arith)
  ]

  pub name_end-dot_pos :
      (i d : ℕ) (a dotted : Bool) (cs : Bytes)
      → DotAt l i d dotted
      → i + length cs ≡ l
      → ((name_end i d l a cs).dot_pos == pred_size (i + length (before_byte b':' cs)))
        ≡ ends_dot dotted (before_byte b':' cs)
  name_end-dot_pos i d a dotted [] at e = rw add-zero at.adjacent
  name_end-dot_pos i d a dotted (c ∷ cs) at e = elim (Bool-cases (c == b':')) [
    | inl colon ↦ rw (colon, add-zero) at.adjacent
    | inr other ↦
        rw (other, shift)
          (name_end-dot_pos (suc i) (if c == b'.' then i else d) (a || is_upper c) (c == b'.') cs
            (DotAt-next l i d c dotted (omega arith) at) (omega arith))
  ]
    where
      shift : i + suc (length (before_byte b':' cs)) ≡ suc i + length (before_byte b':' cs)
      shift = omega arith

-- Lists.
pub before_byte-from_byte : (stop : ℕ) (h : Bytes) → before_byte stop h ++ from_byte stop h ≡ h
before_byte-from_byte stop [] = refl
before_byte-from_byte stop (c ∷ cs) = elim (Bool-cases (c == stop)) [
  | inl hit ↦ rw hit
  | inr miss ↦ rw (miss, before_byte-from_byte stop cs)
]

-- The length without the dot.
abbrev pub stripped : Bytes → ℕ
stripped name = if ends_dot false name then length name - 1 else length name

pub length-strip_dot : (name : Bytes) → length (strip_dot name) ≡ stripped name
length-strip_dot [] = refl
length-strip_dot (c ∷ []) = ground arith
length-strip_dot (c ∷ d ∷ cs) = ground (arith, length-strip_dot (d ∷ cs))

pub take-strip_dot :
    (name rest : Bytes) → take (length (strip_dot name)) (name ++ rest) ≡ strip_dot name
take-strip_dot [] rest = refl
take-strip_dot (c ∷ []) rest = ground arith
take-strip_dot (c ∷ d ∷ cs) rest = rw (take-strip_dot (d ∷ cs) rest)

-- Without capitals, lower case changes nothing.
pub map-to_lower_id :
    (name : Bytes) → any_upper name ≡ false → map to_lower (strip_dot name) ≡ strip_dot name
map-to_lower_id [] h = refl
map-to_lower_id (c ∷ []) h = ground arith
map-to_lower_id (c ∷ d ∷ cs) h = ground (arith, map-to_lower_id (d ∷ cs))

pub map-to_lower_plain : (name : Bytes) → any_upper name ≡ false → map to_lower name ≡ name
map-to_lower_plain [] h = refl
map-to_lower_plain (c ∷ cs) h = ground (arith, map-to_lower_plain cs)

pub from_byte-head :
    (stop : ℕ) (h : Bytes) {c : ℕ} {rest : Bytes} → from_byte stop h ≡ c ∷ rest → c ≡ stop
from_byte-head stop [] e = cc
from_byte-head stop (x ∷ h) e = elim (Bool-cases (x == stop)) [
  | inl hit ↦ ground (arith, rw hit at e)
  | inr miss ↦ from_byte-head stop h (rw miss at e)
]
