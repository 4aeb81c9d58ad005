-- ===== src/Merge/Levels.antt =====
-- `merge_loc_conf` over whole configuration levels, and the unchecked `ngx_array_push_n`.
use ngx_http_headers_control.Common.{
  ℕ, ◌≡◌, ◌≢◌, refl, inl, inr, Option, none, some, List, [], ◌∷◌, ltb, length, Bool-cases,
}
use ngx_http_headers_control.Ngx.{Ngx}
use ngx_http_headers_control.Bitmap.{Bitmap, bitmap_init}
use ngx_http_headers_control.Rule.{HeaderVal, LocConf, IsIndexed}
use ngx_http_headers_control.Merge.{
  MergePool, reindex, disable, copy_count, copy_rules, finish, merge_one_array, merge_headers,
  merge_loc_conf,
}
use ngx_http_headers_control.Merge.Inherit.{reindex-IndexedFrom}

-- An array that was created has positions for ids, and the counter counts it.
abbrev pub IsIndexedArray : {H S : Type 0} → Option (List (HeaderVal H S)) → ℕ → Type 0
IsIndexedArray none cnt = Unit
IsIndexedArray (some hs) cnt = IsIndexed hs cnt

pub record IsIndexedConf {HI SI HO SO : Type 0} (conf : LocConf HI SI HO SO) : Type 0 where
  pub inputs : IsIndexedArray conf.headers_in conf.headers_in_cnt
  pub outputs : IsIndexedArray conf.headers_out conf.headers_out_cnt

-- The pool never refuses cells of an array.
abbrev pub Grants : {H S : Type 0} → MergePool H S → Type 0
Grants {H} {S} pool = (a : List (HeaderVal H S)) (n : ℕ) → pool.array_push_n a n ≢ none

module _ (ngx : Ngx) {H S : Type 0} (pool : MergePool H S) where
  reindex-IsIndexed : (hs : List (HeaderVal H S)) → IsIndexed (reindex 0 hs) (length (reindex 0 hs))
  reindex-IsIndexed hs = record { ids = reindex-IndexedFrom 0 hs; counted = refl }

  finish-IsIndexed :
      (map : Bitmap) (n : ℕ) (prev : List (HeaderVal H S)) (o : Option (List (HeaderVal H S)))
      → o ≢ none
      → (hs : List (HeaderVal H S)) × (k : ℕ) × (finish ngx map n prev o ≡ some (hs, k))
        × IsIndexed hs k
  unfolding finish
  finish-IsIndexed map n prev none ne = absurd (ne refl)
  finish-IsIndexed map n prev (some h) ne =
      (_, _, refl, reindex-IsIndexed (copy_rules ngx map prev n h))

  merge_one_array-IsIndexed :
      (curr prev : List (HeaderVal H S)) (cnt : ℕ)
      → Grants pool
      → (hs : List (HeaderVal H S)) × (k : ℕ) × (merge_one_array ngx pool curr prev cnt
          ≡ some (hs, k))
        × IsIndexed hs k
  unfolding merge_one_array
  merge_one_array-IsIndexed curr prev cnt grants =
      let map = disable ngx curr prev (bitmap_init ngx.int_t_len pool.bits_granted cnt) in
      let count = copy_count ngx map prev in
      elim (Bool-cases (ltb 0 count)) [
        | inl more ↦ rw more (
            finish-IsIndexed map (length curr) prev (pool.array_push_n curr count)
              (grants curr count))
        | inr all ↦ rw all (_, _, refl, reindex-IsIndexed curr)
      ]

  merge_headers-IsIndexed :
      (curr : Option (List (HeaderVal H S))) (cnt : ℕ) (prev : Option (List (HeaderVal H S)))
      (prev_cnt : ℕ)
      → Grants pool
      → IsIndexedArray curr cnt
      → IsIndexedArray prev prev_cnt
      → (hs : Option (List (HeaderVal H S))) × (k : ℕ) × (merge_headers ngx pool curr cnt prev
            prev_cnt
          ≡ some (hs, k))
        × IsIndexedArray hs k
  unfolding merge_headers
  merge_headers-IsIndexed none cnt prev prev_cnt grants c p = (prev, prev_cnt, refl, p)
  merge_headers-IsIndexed (some []) cnt prev prev_cnt grants c p = (prev, prev_cnt, refl, p)
  merge_headers-IsIndexed (some (h ∷ hs)) cnt none prev_cnt grants c p =
      (some (h ∷ hs), cnt, refl, c)
  merge_headers-IsIndexed (some (h ∷ hs)) cnt (some []) prev_cnt grants c p =
      (some (h ∷ hs), cnt, refl, c)
  merge_headers-IsIndexed (some (h ∷ hs)) cnt (some (q ∷ qs)) prev_cnt grants c p =
      let (merged, k, ran, ix) = merge_one_array-IsIndexed (h ∷ hs) (q ∷ qs) prev_cnt grants in
      (some merged, k, rw (ran, merge_headers) refl, ix)

-- Where the pool grants the cells it is asked for, the merge of two levels whose rule ids are
-- positions succeeds, and in the merged level the ids are positions again, in both directions.
pub merge_loc_conf-IsIndexedConf :
    (ngx : Ngx) {HI SI HO SO : Type 0} (out_pool : MergePool HO SO) (in_pool : MergePool HI SI)
    (parent child : LocConf HI SI HO SO)
    → Grants out_pool
    → Grants in_pool
    → IsIndexedConf parent
    → IsIndexedConf child
    → (merged : LocConf HI SI HO SO) × (merge_loc_conf ngx out_pool in_pool parent child
        ≡ some merged)
      × IsIndexedConf merged
unfolding merge_loc_conf
merge_loc_conf-IsIndexedConf ngx out_pool in_pool parent child go gi p c =
    let (out, out_cnt, out_ran, out_ix) =
      merge_headers-IsIndexed ngx out_pool child.headers_out child.headers_out_cnt
        parent.headers_out parent.headers_out_cnt go c.outputs p.outputs in
    let (inp, in_cnt, in_ran, in_ix) =
      merge_headers-IsIndexed ngx in_pool child.headers_in child.headers_in_cnt parent.headers_in
        parent.headers_in_cnt gi c.inputs p.inputs in
    (_, rw (out_ran, in_ran) refl, record { inputs = in_ix; outputs = out_ix })
