-- ===== src/Host/Name.antt =====
-- The machine of `validate_host` over a registered name and over a port.
use ngx_http_headers_control.Common.{
  ℕ, suc, ◌+◌, ◌*◌, ◌-◌, ◌^◌, ◌≤◌, ◌<◌, ◌≡◌, ◌⊎◌, inl, inr, refl, ap, ◌∙◌, Bool, not, ◌&&◌, ◌||◌,
  none, some, [], ◌∷◌, arith, ◌==◌, leb, if◌then◌else◌, Bool-cases, ◌>>=◌, length,
}
use ngx_http_headers_control.Ngx.{Bytes}
use ngx_http_headers_control.Host.{
  HostState, sw_host, sw_port, Scan, pred_size, is_upper, is_digit, step_in, scan,
}
use ngx_http_headers_control.Host.Grammar.{
  name_byte, well_formed, before_byte, from_byte, all_digits, decimal, port_part,
}

abbrev pub at_state : HostState → (dot_pos host_len port : ℕ) → Bool → Scan
at_state st d l p a = record { state = st; dot_pos = d; host_len = l; port = p; alloc = a }

pub scan-nil : (i : ℕ) (s : Scan) → scan i s [] ≡ some s
unfolding scan
scan-nil i s = refl

pub scan-cons :
    (i : ℕ) (s : Scan) (c : ℕ) (rest : Bytes)
    → scan i s (c ∷ rest) ≡ (step_in s.state i s c >>= λ t. scan (suc i) t rest)
unfolding scan
scan-cons i s c rest = refl

le-decimal : (n : ℕ) (ds : Bytes) → n ≤ decimal n ds
le-decimal n [] = omega arith
le-decimal n (c ∷ ds) = omega (arith, le-decimal (n * 10 + (c - b'0')) ds)

-- The digit test of the machine keeps the port at most 65535.
step_port-le :
    (i d l p c : ℕ) (a : Bool)
    → p ≤ 65535
    → step_in sw_port i (at_state sw_port d l p a) c ≡ (
        if is_digit c && leb (p * 10 + (c - b'0')) 65535
        then some (at_state sw_port d l (p * 10 + (c - b'0')) a)
        else none)
unfolding step_in
step_port-le i d l p c a h = ground arith

pub scan_port :
    (i d l p : ℕ) (a : Bool) (ds : Bytes)
    → p ≤ 65535
    → scan i (at_state sw_port d l p a) ds ≡ (
        if all_digits ds && leb (decimal p ds) 65535
        then some (at_state sw_port d l (decimal p ds) a)
        else none)
scan_port i d l p a [] h = rw scan-nil (ground arith)
scan_port i d l p a (c ∷ ds) h =
    rw (scan-cons, step_port-le i d l p c a h)
      (elim (Bool-cases (is_digit c && leb (p * 10 + (c - b'0')) 65535)) [
        | inl fine ↦ rw fine (
            scan_port (suc i) d l (p * 10 + (c - b'0')) a ds (ground arith)
            ∙ ap
                (λ b.
                  if b
                  then some (at_state sw_port d l (decimal (p * 10 + (c - b'0')) ds) a)
                  else none)
                (ground arith))
        | inr wrong ↦ rw wrong (ground (arith, le-decimal (p * 10 + (c - b'0')) ds))
      ])

-- The machine's variables behind a registered name and its port.
abbrev pub name_end : (i d l : ℕ) → Bool → Bytes → Scan
name_end i d l a [] = at_state sw_host d l 0 a
name_end i d l a (c ∷ cs) =
    if c == b':'
    then at_state sw_port d i (decimal 0 cs) a
    else name_end (suc i) (if c == b'.' then i else d) l (a || is_upper c) cs

-- `dot_pos` is the index of an earlier dot or still the length of the host, and `dotted` says
-- whether the dot stands directly in front of index `i`.
pub record DotAt (total i d : ℕ) (dotted : Bool) : Type 0 where
  pub adjacent : (d == pred_size i) ≡ dotted
  pub earlier : (d < i) ⊎ (d ≡ total)
  pub fits : total + 1 < 2 ^ 64

pub DotAt-next :
    (total i d c : ℕ) (dotted : Bool)
    → i < total
    → DotAt total i d dotted
    → DotAt total (suc i) (if c == b'.' then i else d) (c == b'.')
DotAt-next total i d c dotted lt h = ground (arith, h.earlier, h.fits)

-- One byte in the state `sw_host`.
step_host-name :
    (i d l c total : ℕ) (a dotted : Bool)
    → DotAt total i d dotted
    → step_in sw_host i (at_state sw_host d l 0 a) c ≡ (
        if c == b':'
        then some (at_state sw_port d i 0 a)
        else if name_byte c && not (dotted && c == b'.')
        then some (at_state sw_host (if c == b'.' then i else d) l 0 (a || is_upper c))
        else none)
unfolding step_in
step_host-name i d l c total a dotted at = ground (arith, at.adjacent)

pub scan_name :
    (total i d l : ℕ) (a dotted : Bool) (cs : Bytes)
    → DotAt total i d dotted
    → i + length cs ≡ total
    → scan i (at_state sw_host d l 0 a) cs ≡ (
        if well_formed name_byte dotted (before_byte b':' cs) && port_part (from_byte b':' cs)
        then some (name_end i d l a cs)
        else none)
scan_name total i d l a dotted [] at len = rw scan-nil
scan_name total i d l a dotted (c ∷ cs) at len =
    rw (scan-cons, step_host-name i d l c total a dotted at)
      (elim (Bool-cases (c == b':')) [
        | inl colon ↦ rw (colon, scan_port (suc i) d i 0 a cs (omega arith), colon)
        | inr other ↦ rw other (elim (Bool-cases (name_byte c && not (dotted && c == b'.'))) [
          | inl fine ↦ rw fine (
              scan_name total (suc i) (if c == b'.' then i else d) l (a || is_upper c) (c == b'.')
                cs (DotAt-next total i d c dotted (omega arith) at) (omega arith))
          | inr wrong ↦ rw wrong
        ])
      ])
