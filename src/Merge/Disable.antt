-- ===== src/Merge/Disable.antt =====
-- The disable pass of `merge_one_array`: which parent rules the bitmap marks.
use ngx_http_headers_control.Common.{
  ℕ, ◌≡◌, refl, ◌∙◌, inl, inr, Bool, true, false, not, ◌&&◌, ◌||◌, List, [], ◌∷◌, arith, ◌==◌,
  Bool-cases,
}
use ngx_http_headers_control.Ngx.{Ngx, HasWordLength, same_key}
use ngx_http_headers_control.Bitmap.{Bitmap, bitmap_set, bitmap_isset}
use ngx_http_headers_control.Bitmap.Laws.{
  HasRoom, in_range, bitmap_set-HasRoom, bitmap_isset-set, in_range-set,
}
use ngx_http_headers_control.Rule.{HeaderVal}
use ngx_http_headers_control.Merge.{conditional, disable_by, disable}

module _ (ngx : Ngx) {H S : Type 0} where
  -- Whether a child rule takes over the parent rule of its name: the child rule is unconditional,
  -- exact and without `-n`, and the parent rule is exact.
  abbrev pub matches : HeaderVal H S → HeaderVal H S → Bool
  matches h p = not p.wildcard && same_key ngx h.key p.key

  abbrev pub final : HeaderVal H S → Bool
  final h = not (conditional h || h.next || h.wildcard)

  -- A parent rule that some child rule takes over.
  abbrev pub disabled : List (HeaderVal H S) → HeaderVal H S → Bool
  disabled [] p = false
  disabled (h ∷ hs) p = (final h && matches h p) || disabled hs p

  -- Some parent rule with the id `b` matches the child rule, or is disabled.
  abbrev matched_id : HeaderVal H S → List (HeaderVal H S) → ℕ → Bool
  matched_id h [] b = false
  matched_id h (p ∷ ps) b = (matches h p && p.id == b) || matched_id h ps b

  abbrev pub disabled_id : List (HeaderVal H S) → List (HeaderVal H S) → ℕ → Bool
  disabled_id hs [] b = false
  disabled_id hs (p ∷ ps) b = (disabled hs p && p.id == b) || disabled_id hs ps b

  -- The bitmap can record every parent rule.
  abbrev pub AllInRange : Bitmap → List (HeaderVal H S) → Type 0
  AllInRange map [] = Unit
  AllInRange map (p ∷ ps) = (in_range map p.id ≡ true) × AllInRange map ps

  disabled_id-cons :
      (h : HeaderVal H S) (hs ps : List (HeaderVal H S)) (b : ℕ)
      → disabled_id (h ∷ hs) ps b ≡ (final h && matched_id h ps b) || disabled_id hs ps b
  disabled_id-cons h hs [] b = ground arith
  disabled_id-cons h hs (p ∷ ps) b = ground (arith, disabled_id-cons h hs ps b)

  disabled_id-nil : (ps : List (HeaderVal H S)) (b : ℕ) → disabled_id [] ps b ≡ false
  disabled_id-nil [] b = refl
  disabled_id-nil (p ∷ ps) b = disabled_id-nil ps b

module _ (ngx : Ngx) (wl : HasWordLength ngx) {H S : Type 0} where
  AllInRange-set :
      (map : Bitmap) (b : ℕ) (ps : List (HeaderVal H S))
      → AllInRange ngx map ps
      → AllInRange ngx (bitmap_set ngx.int_t_len map b) ps
  AllInRange-set map b [] a = tt
  AllInRange-set map b (p ∷ ps) a = (
    rw (in_range-set ngx.int_t_len wl.positive wl.in_word map b p.id) a.0,
    AllInRange-set map b ps a.1,
  )

  disable_by-isset :
      (h : HeaderVal H S) (ps : List (HeaderVal H S)) (map : Bitmap) (b : ℕ)
      → HasRoom ngx.int_t_len map
      → AllInRange ngx map ps
      → bitmap_isset ngx.int_t_len (disable_by ngx h ps map) b
        ≡ bitmap_isset ngx.int_t_len map b || matched_id ngx h ps b
  unfolding disable_by
  disable_by-isset h [] map b room a = ground arith
  disable_by-isset h (p ∷ ps) map b room a = elim (Bool-cases (matches ngx h p)) [
    | inl m ↦ rw m (
        disable_by-isset h ps (bitmap_set ngx.int_t_len map p.id) b
          (bitmap_set-HasRoom ngx.int_t_len wl.positive wl.in_word map p.id room)
          (AllInRange-set map p.id ps a.1)
        ∙ rw (bitmap_isset-set ngx.int_t_len wl.positive wl.in_word map p.id b room, a.0)
            (ground arith))
    | inr m ↦ rw m (disable_by-isset h ps map b room a.1)
  ]

  disable_by-HasRoom :
      (h : HeaderVal H S) (ps : List (HeaderVal H S)) (map : Bitmap)
      → HasRoom ngx.int_t_len map
      → HasRoom ngx.int_t_len (disable_by ngx h ps map)
  unfolding disable_by
  disable_by-HasRoom h [] map room = room
  disable_by-HasRoom h (p ∷ ps) map room = elim (Bool-cases (matches ngx h p)) [
    | inl m ↦
        rw (m, disable_by)
          (disable_by-HasRoom h ps (bitmap_set ngx.int_t_len map p.id)
            (bitmap_set-HasRoom ngx.int_t_len wl.positive wl.in_word map p.id room))
    | inr m ↦ rw (m, disable_by) (disable_by-HasRoom h ps map room)
  ]

  disable_by-AllInRange :
      (h : HeaderVal H S) (ps qs : List (HeaderVal H S)) (map : Bitmap)
      → AllInRange ngx map qs
      → AllInRange ngx (disable_by ngx h ps map) qs
  unfolding disable_by
  disable_by-AllInRange h [] qs map a = a
  disable_by-AllInRange h (p ∷ ps) qs map a = elim (Bool-cases (matches ngx h p)) [
    | inl m ↦ rw m (
        disable_by-AllInRange h ps qs (bitmap_set ngx.int_t_len map p.id)
          (AllInRange-set map p.id qs a))
    | inr m ↦ rw m (disable_by-AllInRange h ps qs map a)
  ]

  -- The pass adds to the bitmap the ids of the parent rules that a child rule takes over.
  pub disable-isset :
      (hs ps : List (HeaderVal H S)) (map : Bitmap) (b : ℕ)
      → HasRoom ngx.int_t_len map
      → AllInRange ngx map ps
      → bitmap_isset ngx.int_t_len (disable ngx hs ps map) b
        ≡ bitmap_isset ngx.int_t_len map b || disabled_id ngx hs ps b
  unfolding disable
  disable-isset [] ps map b room a = rw (disabled_id-nil ngx ps b) (ground arith)
  disable-isset (h ∷ hs) ps map b room a = elim (Bool-cases (final ngx h)) [
    | inl f ↦
        rw (not_final f, disabled_id-cons ngx h hs ps b, f)
          (disable-isset hs ps (disable_by ngx h ps map) b (disable_by-HasRoom h ps map room)
              (disable_by-AllInRange h ps ps map a)
            ∙ rw (disable_by-isset h ps map b room a) (ground arith))
    | inr f ↦ rw (skipped f, disabled_id-cons ngx h hs ps b, f) (disable-isset hs ps map b room a)
  ]
    where
      not_final : final ngx h ≡ true → (conditional h || h.next || h.wildcard) ≡ false
      not_final f = ground arith

      skipped : final ngx h ≡ false → (conditional h || h.next || h.wildcard) ≡ true
      skipped f = ground arith
