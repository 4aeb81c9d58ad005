-- ===== src/Bitmap/Laws.antt =====
-- What the bitmap operations promise: a set of numbers below the size.
use Prim.Native.Nat.{bit_and}
use native.Mathlib.Nat.{pow-le-pow_right, div-add-mod, mod-lt, div-lt_iff_lt-mul}
use native.Mathlib.Decide.{ℕ_discrete}
use ngx_http_headers_control.Common.{
  ℕ, ◌+◌, ◌-◌, ◌*◌, ◌/◌, ◌%◌, ◌^◌, ◌≤◌, ◌<◌, ◌≡◌, refl, sym, ◌∙◌, ap₂, ◌≢◌, inl, inr, Bool, true,
  false, ◌&&◌, Option, none, some, List, arith, ◌==◌, leb, ltb, if◌then◌else◌, Bool-cases, length,
  get_or, length-set, get_or-set_self, get_or-set_ne, length-replicate, get_or-replicate,
}
use ngx_http_headers_control.Bitmap.{
  Bitmap, one_shl, or_bit, bitmap_init, bitmap_set, bitmap_isset, set_raw,
}
use ngx_http_headers_control.Bitmap.Bits.{bit_or-pow_self, bit_or-pow_ne, zero-bit_and}

-- The test of `bitmap_isset` on the words.
abbrev bit_at : ℕ → List ℕ → ℕ → Bool
bit_at L ws bit = if bit_and (get_or ws (bit / L) 0) (one_shl (bit % L)) == 0 then false else true

-- The words hold every bit below the size.
abbrev HasWords : ℕ → ℕ → Option (List ℕ) → Type 0
HasWords L size none = size ≡ 0
HasWords L size (some ws) = size ≤ length ws * L

abbrev pub HasRoom : ℕ → Bitmap → Type 0
HasRoom L bm = HasWords L bm.size bm.bits

-- The bit is one that `bitmap_set` writes.
abbrev pub in_range : Bitmap → ℕ → Bool
in_range bm bit = elim bm.bits [ none ↦ false | some _ ↦ ltb bit bm.size ]

pow-lt : (k : ℕ) → k < 64 → 2 ^ k < 2 ^ 64
pow-lt k h = omega (arith, pow-le-pow_right {n = 2} (omega arith) {i = k} {j = 63} (omega arith))

one_shl-pow : (k : ℕ) → k < 64 → one_shl k ≡ 2 ^ k
one_shl-pow k h = omega (arith, pow-lt k h)

module _ (L : ℕ) (pos : 0 < L) (fits : L ≤ 64) where
  one_shl-mod : (b : ℕ) → one_shl (b % L) ≡ 2 ^ (b % L)
  one_shl-mod b = one_shl-pow (b % L) (omega (arith, mod-lt b pos))

  word-lt : (b n : ℕ) → b < n * L → b / L < n
  word-lt b n h = (div-lt_iff_lt-mul pos).1 h

  bit_at-or_bit_self : (ws : List ℕ) (b : ℕ) → b / L < length ws → bit_at L (or_bit L ws b) b ≡ true
  unfolding or_bit
  bit_at-or_bit_self ws b h =
      rw (get_or-set_self ws (b / L) _ 0 h, one_shl-mod b)
        (ground (arith, bit_or-pow_self (b % L) (get_or ws (b / L) 0)))

  bit_at-or_bit_ne :
      (ws : List ℕ) (b c : ℕ)
      → b / L < length ws
      → b ≢ c
      → bit_at L (or_bit L ws b) c ≡ bit_at L ws c
  unfolding or_bit
  bit_at-or_bit_ne ws b c h ne = elim (ℕ_discrete (b / L) (c / L)) [
    | yes same ↦
        rw (← same, get_or-set_self ws (b / L) _ 0 h, one_shl-mod b, one_shl-mod c)
          (rw (bit_or-pow_ne (b % L) (c % L) (get_or ws (b / L) 0) (mod_ne same)))
    | no other ↦ rw (get_or-set_ne ws (b / L) (c / L) _ 0 other)
  ]
    where
      mod_ne : b / L ≡ c / L → b % L ≢ c % L
      mod_ne same e = ne (sym (div-add-mod b L) ∙ ap₂ (λ q r. L * q + r) same e ∙ div-add-mod c L)

  HasRoom-word : (b size : ℕ) (ws : List ℕ) → size ≤ length ws * L → b < size → b / L < length ws
  HasRoom-word b size ws room h = word-lt b (length ws) (omega arith)

  -- A fresh bitmap has room for its size, whether or not the pool gave the memory.
  pub bitmap_init-HasRoom : (granted : Bool) (size : ℕ) → HasRoom L (bitmap_init L granted size)
  unfolding bitmap_init
  bitmap_init-HasRoom true size =
      rw length-replicate (omega (arith, div-add-mod (size + L - 1) L, mod-lt (size + L - 1) pos))
  bitmap_init-HasRoom false size = refl

  pub bitmap_isset-init :
      (granted : Bool) (size b : ℕ) → bitmap_isset L (bitmap_init L granted size) b ≡ false
  unfolding bitmap_init bitmap_isset
  bitmap_isset-init true size b =
      rw get_or-replicate (rw (zero-bit_and (one_shl (b % L))) (ground arith))
  bitmap_isset-init false size b = refl

  words-HasWords :
      (size : ℕ) (o : Option (List ℕ)) (b : ℕ)
      → HasWords L size o
      → HasRoom L (bitmap_set L (record { bits = o; size = size }) b)
  unfolding bitmap_set
  words-HasWords size none b room = room
  words-HasWords size (some ws) b room = elim (Bool-cases (ltb b size)) [
    | inl w ↦ rw (w, length-set) room
    | inr w ↦ rw w room
  ]

  isset-set_words :
      (size : ℕ) (o : Option (List ℕ)) (b c : ℕ)
      → HasWords L size o
      → bitmap_isset L (bitmap_set L (record { bits = o; size = size }) b) c ≡ (
          if in_range (record { bits = o; size = size }) b && b == c
          then true
          else bitmap_isset L (record { bits = o; size = size }) c)
  unfolding bitmap_set bitmap_isset
  isset-set_words size none b c room = refl
  isset-set_words size (some ws) b c room = elim (Bool-cases (ltb b size)) [
    | inl w ↦ rw w (written (HasRoom-word b size ws room (ground arith)) (ground arith))
    | inr w ↦ rw w
  ]
    where
      written :
          b / L < length ws
          → b < size
          → (if leb size c then false else bit_at L (or_bit L ws b) c)
            ≡ (if b == c then true else (if leb size c then false else bit_at L ws c))
      written h lt = elim (ℕ_discrete b c) [
        | yes e ↦ rw (← e, bit_at-or_bit_self ws b h) (ground arith)
        | no ne ↦ rw (bit_at-or_bit_ne ws b c h ne) (ground arith)
      ]

  set_raw-words :
      (size : ℕ) (o : Option (List ℕ)) (b : ℕ)
      → HasWords L size o
      → in_range (record { bits = o; size = size }) b ≡ true
      → set_raw L (record { bits = o; size = size }) b
        ≡ some (bitmap_set L (record { bits = o; size = size }) b)
  unfolding bitmap_set set_raw
  set_raw-words size none b room h = absurd (ground arith)
  set_raw-words size (some ws) b room h =
      let word : ltb (b / L) (length ws) ≡ true =
        ground (arith, HasRoom-word b size ws room (ground arith)) in
      rw (word, h) refl

  module _ (bm : Bitmap) where
    pub bitmap_set-HasRoom : (b : ℕ) → HasRoom L bm → HasRoom L (bitmap_set L bm b)
    bitmap_set-HasRoom b room = words-HasWords bm.size bm.bits b room

    pub bitmap_set-size : (b : ℕ) → (bitmap_set L bm b).size ≡ bm.size
    unfolding bitmap_set
    bitmap_set-size b = ground arith

    -- With a word length from 1 to 64 and a bitmap that has room for its size, a bit reads as set
    -- after a write if it was written within the range of the bitmap, and else as before.
    pub bitmap_isset-set :
        (b c : ℕ)
        → HasRoom L bm
        → bitmap_isset L (bitmap_set L bm b) c
          ≡ (if in_range bm b && b == c then true else bitmap_isset L bm c)
    bitmap_isset-set b c room = isset-set_words bm.size bm.bits b c room

    -- The write without the guard, where the guard holds.
    pub set_raw-bitmap_set :
        (b : ℕ) → HasRoom L bm → in_range bm b ≡ true → set_raw L bm b ≡ some (bitmap_set L bm b)
    set_raw-bitmap_set b room h = set_raw-words bm.size bm.bits b room h

    -- A write moves neither the pointer nor the size.
    pub in_range-set : (b c : ℕ) → in_range (bitmap_set L bm b) c ≡ in_range bm c
    unfolding bitmap_set
    in_range-set b c = ground arith

pub in_range-init :
    (L size c : ℕ) (granted : Bool)
    → in_range (bitmap_init L granted size) c ≡ granted && ltb c size
unfolding bitmap_init
in_range-init L size c true = refl
in_range-init L size c false = refl
