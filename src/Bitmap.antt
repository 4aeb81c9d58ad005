-- ===== src/Bitmap.antt =====
-- The lock and disable bitmaps of ngx_http_headers_control_util.c: `bitmap_init`, `bitmap_set`
-- and `bitmap_isset`, and the write that the two rule loops make without the guard of `bitmap_set`.
-- `NGX_INT_T_LEN` is nginx's and a parameter; an `ngx_uint_t` is a number below `2 ^ 64`.
mod Bits
pub mod Laws
use Prim.Native.Nat.{bit_and, bit_or}
use ngx_http_headers_control.Common.{
  ℕ, ◌+◌, ◌-◌, ◌*◌, ◌/◌, ◌%◌, ◌^◌, Bool, true, false, Option, none, some, List, ◌==◌, leb, ltb,
  if◌then◌else◌, length, get_or, set, replicate,
}

-- `bits` is `none` for the null pointer.
pub record Bitmap : Type 0 where
  pub bits : Option (List ℕ)
  pub size : ℕ

-- `(ngx_uint_t) 1 << k`
abbrev pub one_shl : ℕ → ℕ
one_shl k = 2 ^ k % 2 ^ 64

-- `bits[bit / NGX_INT_T_LEN] |= (ngx_uint_t) 1 << (bit % NGX_INT_T_LEN)`
pub or_bit : ℕ → List ℕ → ℕ → List ℕ
or_bit int_t_len bits bit =
    let word = bit / int_t_len in
    set bits word (bit_or (get_or bits word 0) (one_shl (bit % int_t_len)))

-- `ngx_pcalloc(pool, n * sizeof(ngx_uint_t))`, where `granted` says whether the pool gives the
-- memory.
abbrev pub pcalloc : Bool → ℕ → Option (List ℕ)
pcalloc granted n = if granted then some (replicate n 0) else none

abbrev bitmap_of : ℕ → Option (List ℕ) → Bitmap
bitmap_of size none = record { bits = none; size = 0 }
bitmap_of size (some bits) = record { bits = some bits; size = size }

unfoldable pub bitmap_init : (int_t_len : ℕ) → Bool → ℕ → Bitmap
bitmap_init int_t_len granted size =
    bitmap_of size (pcalloc granted ((size + int_t_len - 1) / int_t_len))

set_in : ℕ → Bitmap → Option (List ℕ) → ℕ → Bitmap
set_in int_t_len bm none bit = bm
set_in int_t_len bm (some bits) bit =
    if ltb bit bm.size then record bm { bits = some (or_bit int_t_len bits bit) } else bm

unfoldable pub bitmap_set : (int_t_len : ℕ) → Bitmap → ℕ → Bitmap
unfolding set_in or_bit
bitmap_set int_t_len bm bit = set_in int_t_len bm bm.bits bit

isset_in : ℕ → ℕ → Option (List ℕ) → ℕ → Bool
isset_in int_t_len size none bit = false
isset_in int_t_len size (some bits) bit =
    if leb size bit
    then false
    else if bit_and (get_or bits (bit / int_t_len) 0) (one_shl (bit % int_t_len)) == 0
    then false
    else true

-- `true` for NGX_OK, `false` for NGX_DECLINED.
unfoldable pub bitmap_isset : (int_t_len : ℕ) → Bitmap → ℕ → Bool
unfolding isset_in
bitmap_isset int_t_len bm bit = isset_in int_t_len bm.size bm.bits bit

set_raw_in : ℕ → Bitmap → Option (List ℕ) → ℕ → Option Bitmap
set_raw_in int_t_len bm none bit = none
set_raw_in int_t_len bm (some bits) bit =
    if ltb (bit / int_t_len) (length bits)
    then some (record bm { bits = some (or_bit int_t_len bits bit) })
    else none

-- The write of the rule loops, which tests neither the pointer nor the size; `none` is the access
-- through the null pointer or behind the words.
unfoldable pub set_raw : (int_t_len : ℕ) → Bitmap → ℕ → Option Bitmap
unfolding set_raw_in or_bit
set_raw int_t_len bm bit = set_raw_in int_t_len bm bm.bits bit
