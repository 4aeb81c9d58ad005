-- ===== src/Host/Literal.antt =====
-- The machine of `validate_host` over an IP literal, behind its opening bracket.
use ngx_http_headers_control.Common.{
  ℕ, suc, ◌+◌, ◌<◌, ◌≡◌, inl, inr, refl, ◌∙◌, Bool, true, false, not, ◌&&◌, ◌||◌, none, some, [],
  ◌∷◌, arith, ◌==◌, if◌then◌else◌, Bool-cases, length,
}
use ngx_http_headers_control.Ngx.{Bytes}
use ngx_http_headers_control.Host.{
  sw_host_ip_literal, sw_host_end, sw_port, Scan, is_upper, step_in, scan, in_literal,
}
use ngx_http_headers_control.Host.Grammar.{
  literal_byte, well_formed, before_byte, from_byte, decimal, port_part,
}
use ngx_http_headers_control.Host.Name.{at_state, DotAt, DotAt-next, scan-nil, scan-cons, scan_port}
use ngx_http_headers_control.Host.Ends.{any_upper}

-- Behind the bracket: at the end of the host, or in the port.
abbrev port_end : (d l : ℕ) → Bool → Bytes → Scan
port_end d l a [] = at_state sw_host_end d l 0 a
port_end d l a (c ∷ ds) = at_state sw_port d l (decimal 0 ds) a

abbrev pub literal_end : (i d l : ℕ) → Bool → Bytes → Scan
literal_end i d l a [] = at_state sw_host_ip_literal d l 0 a
literal_end i d l a (c ∷ cs) =
    if c == b']'
    then port_end d (i + 1) a cs
    else literal_end (suc i) (if c == b'.' then i else d) l (a || is_upper c) cs

-- What may follow the address: its end is left to the test behind the loop.
abbrev pub closing : Bytes → Bool
closing [] = true
closing (c ∷ rest) = port_part rest

step_literal-byte :
    (i d l c total : ℕ) (a dotted : Bool)
    → DotAt total i d dotted
    → step_in sw_host_ip_literal i (at_state sw_host_ip_literal d l 0 a) c ≡ (
        if c == b']'
        then some (at_state sw_host_end d (i + 1) 0 a)
        else if literal_byte c && not (dotted && c == b'.')
        then some (at_state sw_host_ip_literal (if c == b'.' then i else d) l 0 (a || is_upper c))
        else none)
unfolding step_in
step_literal-byte i d l c total a dotted at = ground (arith, at.adjacent)

step_end-colon :
    (i d l c : ℕ) (a : Bool)
    → step_in sw_host_end i (at_state sw_host_end d l 0 a) c
      ≡ (if c == b':' then some (at_state sw_port d l 0 a) else none)
unfolding step_in
step_end-colon i d l c a = refl

scan_end :
    (i d l : ℕ) (a : Bool) (rest : Bytes)
    → scan i (at_state sw_host_end d l 0 a) rest
      ≡ (if port_part rest then some (port_end d l a rest) else none)
scan_end i d l a [] = rw scan-nil
scan_end i d l a (c ∷ ds) =
    rw (scan-cons, step_end-colon i d l c a)
      (elim (Bool-cases (c == b':')) [
        | inl colon ↦ rw (colon, scan_port (suc i) d l 0 a ds (omega arith))
        | inr other ↦ rw other
      ])

pub scan_literal :
    (total i d l : ℕ) (a dotted : Bool) (cs : Bytes)
    → DotAt total i d dotted
    → i + length cs ≡ total
    → scan i (at_state sw_host_ip_literal d l 0 a) cs ≡ (
        if well_formed literal_byte dotted (before_byte b']' cs) && closing (from_byte b']' cs)
        then some (literal_end i d l a cs)
        else none)
scan_literal total i d l a dotted [] at len = rw scan-nil
scan_literal total i d l a dotted (c ∷ cs) at len =
    rw (scan-cons, step_literal-byte i d l c total a dotted at)
      (elim (Bool-cases (c == b']')) [
        | inl bracket ↦ rw (bracket, scan_end (suc i) d (i + 1) a cs)
        | inr other ↦ rw other (elim (Bool-cases (literal_byte c && not (dotted && c == b'.'))) [
          | inl fine ↦ rw fine (
              scan_literal total (suc i) (if c == b'.' then i else d) l (a || is_upper c)
                (c == b'.') cs (DotAt-next total i d c dotted (omega arith) at) (omega arith))
          | inr wrong ↦ rw wrong
        ])
      ])

-- The variables at the end, by whether the closing bracket was there.
module _ (l : ℕ) where
  pub literal_end_open :
      (i d : ℕ) (a : Bool) (cs : Bytes)
      → from_byte b']' cs ≡ []
      → in_literal (literal_end i d l a cs).state ≡ true
  literal_end_open i d a [] e = refl
  literal_end_open i d a (c ∷ cs) e = elim (Bool-cases (c == b']')) [
    | inl bracket ↦ cc (rw bracket at e)
    | inr other ↦
        rw other (
          literal_end_open (suc i) (if c == b'.' then i else d) (a || is_upper c) cs
            (rw other at e))
  ]

  -- A closed literal: the host ends behind the bracket, and no dot stands in front of that end.
  pub record Closed (i : ℕ) (a : Bool) (address : Bytes) (s : Scan) : Type 0 where
    pub out : in_literal s.state ≡ false
    pub len : s.host_len ≡ i + length address + 1
    pub undotted : (s.dot_pos == i + length address) ≡ false
    pub alloc : s.alloc ≡ a || any_upper address

  port_end-Closed :
      (i d : ℕ) (a dotted : Bool) (rest : Bytes)
      → DotAt l i d dotted
      → i < l
      → Closed i a [] (port_end d (i + 1) a rest)
  port_end-Closed i d a dotted [] at lt = record {
    out = refl;
    len = omega arith;
    undotted = ground (arith, at.earlier);
    alloc = ground arith;
  }
  port_end-Closed i d a dotted (c ∷ ds) at lt = record {
    out = refl;
    len = omega arith;
    undotted = ground (arith, at.earlier);
    alloc = ground arith;
  }

  Closed-cons :
      (i c : ℕ) (a : Bool) (address : Bytes) (s : Scan)
      → Closed (suc i) (a || is_upper c) address s
      → Closed i a (c ∷ address) s
  Closed-cons i c a address s r = record {
    out = r.out;
    len = omega (arith, r.len);
    undotted = rw shift r.undotted;
    alloc = r.alloc ∙ ground arith;
  }
    where
      shift : i + suc (length address) ≡ suc i + length address
      shift = omega arith

  pub literal_end-Closed :
      (i d : ℕ) (a dotted : Bool) (cs : Bytes) {c : ℕ} {rest : Bytes}
      → DotAt l i d dotted
      → i + length cs ≡ l
      → from_byte b']' cs ≡ c ∷ rest
      → Closed i a (before_byte b']' cs) (literal_end i d l a cs)
  literal_end-Closed i d a dotted [] at len e = cc
  literal_end-Closed i d a dotted (c ∷ cs) at len e = elim (Bool-cases (c == b']')) [
    | inl bracket ↦ rw bracket (port_end-Closed i d a dotted cs at (omega arith))
    | inr other ↦ rw other (
        Closed-cons i c a (before_byte b']' cs) _ (
          literal_end-Closed (suc i) (if c == b'.' then i else d) (a || is_upper c) (c == b'.') cs
            (DotAt-next l i d c dotted (omega arith) at) (omega arith) (rw other at e)))
  ]
