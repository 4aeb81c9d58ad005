-- ===== src/Merge/Inherit.antt =====
-- What `merge_one_array` computes: the child rules in order, then the parent rules that no child
-- rule takes over, with ids that are positions again.
use ngx_http_headers_control.Common.{
  ℕ, suc, ◌+◌, ◌≤◌, ◌<◌, ◌≡◌, refl, ap, ◌∙◌, ◌≢◌, inl, inr, true, false, none, some, List, [], ◌∷◌,
  ◌++◌, arith, ltb, if◌then◌else◌, Bool-cases, Option-cases, length, set, length-append,
  append_assoc, append-nil,
}
use ngx_http_headers_control.Ngx.{Ngx, HasWordLength}
use ngx_http_headers_control.Bitmap.{Bitmap, bitmap_init, bitmap_isset}
use ngx_http_headers_control.Bitmap.Laws.{in_range-init, bitmap_init-HasRoom, bitmap_isset-init}
use ngx_http_headers_control.Rule.{HeaderVal, IndexedFrom, IsIndexed}
use ngx_http_headers_control.Merge.{
  MergePool, Extends, disable, copy_count, copy_rules, reindex, finish, merge_one_array,
}
use ngx_http_headers_control.Merge.Disable.{disabled, disabled_id, disable-isset, AllInRange}

module _ {H S : Type 0} where
  pub reindex-IndexedFrom : (i : ℕ) (hs : List (HeaderVal H S)) → IndexedFrom i (reindex i hs)
  unfolding reindex
  reindex-IndexedFrom i [] = tt
  reindex-IndexedFrom i (h ∷ hs) = (refl, reindex-IndexedFrom (suc i) hs)

nil_of_length : {A : Type 0} (xs : List A) → length xs ≡ 0 → xs ≡ []
nil_of_length [] e = refl
nil_of_length (x ∷ xs) e = absurd (omega (arith, e))

module _ (ngx : Ngx) {H S : Type 0} where
  -- The parent rules that stay.
  abbrev pub kept : List (HeaderVal H S) → List (HeaderVal H S) → List (HeaderVal H S)
  kept hs [] = []
  kept hs (p ∷ ps) = if disabled ngx hs p then kept hs ps else p ∷ kept hs ps

  -- The rules that the bitmap does not mark.
  abbrev unmarked : Bitmap → List (HeaderVal H S) → List (HeaderVal H S)
  unmarked map [] = []
  unmarked map (p ∷ ps) =
      if bitmap_isset ngx.int_t_len map p.id then unmarked map ps else p ∷ unmarked map ps

  copy_count-length :
      (map : Bitmap) (ps : List (HeaderVal H S)) → copy_count ngx map ps ≡ length (unmarked map ps)
  unfolding copy_count
  copy_count-length map [] = refl
  copy_count-length map (p ∷ ps) = elim (Bool-cases (bitmap_isset ngx.int_t_len map p.id)) [
    | inl m ↦ rw (m, copy_count-length map ps) (omega arith)
    | inr m ↦ rw (m, copy_count-length map ps) (omega arith)
  ]

  set-append :
      (a cells : List (HeaderVal H S)) (c p : HeaderVal H S)
      → set (a ++ (c ∷ cells)) (length a) p ≡ a ++ (p ∷ cells)
  set-append [] cells c p = refl
  set-append (x ∷ a) cells c p = ap (◌∷◌ x) (set-append a cells c p)

  -- The copying pass fills the new cells with the unmarked rules, in order.
  copy_rules-unmarked :
      (map : Bitmap) (ps a cells : List (HeaderVal H S)) (pos : ℕ)
      → pos ≡ length a
      → length cells ≡ length (unmarked map ps)
      → copy_rules ngx map ps pos (a ++ cells) ≡ a ++ unmarked map ps
  unfolding copy_rules
  copy_rules-unmarked map [] a [] pos at_end e = refl
  copy_rules-unmarked map [] a (c ∷ cells) pos at_end e = absurd (omega (arith, e))
  copy_rules-unmarked map (p ∷ ps) a [] pos at_end e =
      elim (Bool-cases (bitmap_isset ngx.int_t_len map p.id)) [
        | inl m ↦ rw m (copy_rules-unmarked map ps a [] pos at_end (rw m at e))
        | inr m ↦ absurd (omega (arith, rw m at e))
      ]
  copy_rules-unmarked map (p ∷ ps) a (c ∷ cells) pos at_end e =
      elim (Bool-cases (bitmap_isset ngx.int_t_len map p.id)) [
        | inl m ↦ rw m (copy_rules-unmarked map ps a (c ∷ cells) pos at_end (rw m at e))
        | inr m ↦
            let grown =
              copy_rules-unmarked map ps (a ++ p ∷ []) cells (suc pos)
                (omega (arith, length-append a (p ∷ []))) (omega (arith, rw m at e)) in
            rw (m, at_end, set-append a cells c p)
              (rw (at_end, append_assoc, append_assoc) at grown)
      ]

  finish-unmarked :
      (map : Bitmap) (ps a cells : List (HeaderVal H S))
      → length cells ≡ length (unmarked map ps)
      → let merged = reindex 0 (a ++ unmarked map ps) in
        finish ngx map (length a) ps (some (a ++ cells)) ≡ some (merged, length merged)
  unfolding finish
  finish-unmarked map ps a cells e = rw (copy_rules-unmarked map ps a cells (length a) refl e)

  -- With ids that are positions, a mark tells which rule it is for.
  disabled_id-below :
      (hs ps : List (HeaderVal H S)) (k b : ℕ)
      → IndexedFrom k ps
      → b < k
      → disabled_id ngx hs ps b ≡ false
  disabled_id-below hs [] k b ix lt = refl
  disabled_id-below hs (p ∷ ps) k b ix lt =
      ground (arith, disabled_id-below hs ps (suc k) b ix.1, ix.0)

  unmarked-kept :
      (hs ps : List (HeaderVal H S)) (map : Bitmap) (k : ℕ)
      → IndexedFrom k ps
      → ((b : ℕ) → k ≤ b → bitmap_isset ngx.int_t_len map b ≡ disabled_id ngx hs ps b)
      → unmarked map ps ≡ kept hs ps
  unmarked-kept hs [] map k ix marks = refl
  unmarked-kept hs (p ∷ ps) map k ix marks =
      rw (here, unmarked-kept hs ps map (suc k) ix.1 λ b le. marks b (omega arith) ∙ other b le)
    where
      here : bitmap_isset ngx.int_t_len map p.id ≡ disabled ngx hs p
      here =
          marks p.id (omega (arith, ix.0))
          ∙ ground (arith, ix.0, disabled_id-below hs ps (suc k) p.id ix.1)

      other : (b : ℕ) → suc k ≤ b → disabled_id ngx hs (p ∷ ps) b ≡ disabled_id ngx hs ps b
      other b le = ground (arith, ix.0)

module _ (ngx : Ngx) (wl : HasWordLength ngx) {H S : Type 0} (pool : MergePool H S) where
  AllInRange-init :
      (ps : List (HeaderVal H S)) (k cnt : ℕ)
      → IndexedFrom k ps
      → k + length ps ≤ cnt
      → AllInRange ngx (bitmap_init ngx.int_t_len true cnt) ps
  AllInRange-init [] k cnt ix le = tt
  AllInRange-init (p ∷ ps) k cnt ix le =
      (rw in_range-init (ground (arith, ix.0)), AllInRange-init ps (suc k) cnt ix.1 (omega arith))

  -- The bitmap that the disable pass leaves.
  abbrev marks_of : List (HeaderVal H S) → List (HeaderVal H S) → ℕ → Bitmap
  marks_of curr prev cnt = disable ngx curr prev (bitmap_init ngx.int_t_len pool.bits_granted cnt)

  unmarked-marks_of :
      (curr prev : List (HeaderVal H S)) (cnt : ℕ)
      → pool.bits_granted ≡ true
      → IsIndexed prev cnt
      → unmarked ngx (marks_of curr prev cnt) prev ≡ kept ngx curr prev
  unmarked-marks_of curr prev cnt granted ix =
      unmarked-kept ngx curr prev (marks_of curr prev cnt) 0 ix.ids λ b le. rw granted (
        disable-isset ngx wl curr prev (bitmap_init ngx.int_t_len true cnt) b
          (bitmap_init-HasRoom ngx.int_t_len wl.positive wl.in_word true cnt)
          (AllInRange-init prev 0 cnt ix.ids (omega (arith, ix.counted)))
        ∙ rw (bitmap_isset-init ngx.int_t_len wl.positive wl.in_word true cnt b))

  merge-unmarked :
      (curr prev : List (HeaderVal H S)) (cnt : ℕ)
      → Extends pool
      → ((n : ℕ) → pool.array_push_n curr n ≢ none)
      → let merged = reindex 0 (curr ++ unmarked ngx (marks_of curr prev cnt) prev) in
        merge_one_array ngx pool curr prev cnt ≡ some (merged, length merged)
  unfolding merge_one_array
  merge-unmarked curr prev cnt ext granted = elim (Bool-cases (ltb 0 (copy_count ngx map prev))) [
    | inl some_left ↦ elim (Option-cases (pool.array_push_n curr (copy_count ngx map prev))) [
      | inl refused ↦ absurd (granted (copy_count ngx map prev) refused)
      | inr (b, given) ↦
          let (cells, is, len) = ext.extends curr (copy_count ngx map prev) given in
          rw (some_left, given, is)
            (finish-unmarked ngx map prev curr cells (len ∙ copy_count-length ngx map prev))
    ]
    | inr none_left ↦
        let empty =
          nil_of_length (unmarked ngx map prev) (ground (arith, copy_count-length ngx map prev)) in
        rw (none_left, empty, append-nil)
  ]
    where
      map : Bitmap
      map = marks_of curr prev cnt

  -- With an NGX_INT_T_LEN from 1 to 64, a pool that gives the memory and parent ids that are
  -- positions, the merge gives the child rules in order, then those parent rules in order that no
  -- unconditional exact child rule without -n takes over, with ids counted anew.
  pub merge_one_array-kept :
      (curr prev : List (HeaderVal H S)) (cnt : ℕ)
      → pool.bits_granted ≡ true
      → Extends pool
      → ((n : ℕ) → pool.array_push_n curr n ≢ none)
      → IsIndexed prev cnt
      → let merged = reindex 0 (curr ++ kept ngx curr prev) in
        merge_one_array ngx pool curr prev cnt ≡ some (merged, length merged)
  merge_one_array-kept curr prev cnt granted ext pushed ix =
      rw (← unmarked-marks_of curr prev cnt granted ix) (merge-unmarked curr prev cnt ext pushed)

  -- With an NGX_INT_T_LEN from 1 to 64, parent ids that are positions and a pool that gives the
  -- disable bitmap but refuses the cells for parent rules that stay, of which there are some, the
  -- merge writes past the end of the array of the child.
  pub merge_one_array-refused :
      (curr prev : List (HeaderVal H S)) (cnt : ℕ)
      → pool.bits_granted ≡ true
      → IsIndexed prev cnt
      → 0 < length (kept ngx curr prev)
      → pool.array_push_n curr (length (kept ngx curr prev)) ≡ none
      → merge_one_array ngx pool curr prev cnt ≡ none
  unfolding merge_one_array
  merge_one_array-refused curr prev cnt granted ix some_left refused =
      let map = marks_of curr prev cnt in
      let count : copy_count ngx map prev ≡ length (kept ngx curr prev) =
        copy_count-length ngx map prev ∙ rw (unmarked-marks_of curr prev cnt granted ix) in
      let more : ltb 0 (length (kept ngx curr prev)) ≡ true = ground arith in
      rw (count, more, refused, finish) refl
