-- ===== src/Merge.antt =====
-- Merging of configuration levels in ngx_http_headers_control_module.c: `merge_one_array` and
-- `merge_loc_conf`. `pool` gives the pool's answers: whether the bitmap is granted, and what
-- `ngx_array_push_n` does to an array.
mod Disable
pub mod Levels
pub mod Inherit
use ngx_http_headers_control.Common.{
  ℕ, zero, suc, ◌+◌, ◌<◌, ◌≡◌, Bool, true, false, not, ◌&&◌, ◌||◌, Option, none, some, List, [],
  ◌∷◌, ◌++◌, if◌then◌else◌, ltb, length, set, ◌>>=◌,
}
use ngx_http_headers_control.Ngx.{Bytes, Ngx, same_key}
use ngx_http_headers_control.Bitmap.{Bitmap, bitmap_init, bitmap_set, bitmap_isset}
use ngx_http_headers_control.Rule.{HeaderVal, LocConf}

-- The allocations of a merge: `ngx_pcalloc` in `bitmap_init`, and `ngx_array_push_n(a, n)`, which
-- gives the array with `n` cells more, or nothing.
pub record MergePool (H S : Type 0) : Type 0 where
  pub bits_granted : Bool
  pub array_push_n : List (HeaderVal H S) → ℕ → Option (List (HeaderVal H S))

-- `ngx_array_push_n` leaves the old cells alone and adds `n` new ones, with whatever they hold.
pub record Extends {H S : Type 0} (pool : MergePool H S) : Type 0 where
  pub extends :
      (a : List (HeaderVal H S)) (n : ℕ) {b : List (HeaderVal H S)}
      → pool.array_push_n a n ≡ some b
      → (cells : List (HeaderVal H S)) × (b ≡ a ++ cells) × (length cells ≡ n)

module _ {H S : Type 0} where
  -- `conditional`: the rule has an `if=` or `if!=`.
  abbrev pub conditional : HeaderVal H S → Bool
  conditional h = elim h.filter [ none ↦ false | some _ ↦ true ]

  -- `for (i = 0; i < nelts; i++) h[i].id = i;`
  unfoldable pub reindex : ℕ → List (HeaderVal H S) → List (HeaderVal H S)
  reindex i [] = []
  reindex i (h ∷ hs) = record h { id = i } ∷ reindex (suc i) hs

module _ (ngx : Ngx) {H S : Type 0} where
  -- The inner loop of the disable pass: child rule `h` against each parent rule.
  disable_by : HeaderVal H S → List (HeaderVal H S) → Bitmap → Bitmap
  disable_by h [] map = map
  disable_by h (p ∷ ps) map = disable_by h ps (
      if not p.wildcard && same_key ngx h.key p.key then bitmap_set ngx.int_t_len map p.id else map)

  -- The disable pass.
  pub disable : List (HeaderVal H S) → List (HeaderVal H S) → Bitmap → Bitmap
  unfolding disable_by
  disable [] ps map = map
  disable (h ∷ hs) ps map =
      disable hs ps (if conditional h || h.next || h.wildcard then map else disable_by h ps map)

  pub copy_count : Bitmap → List (HeaderVal H S) → ℕ
  copy_count map [] = 0
  copy_count map (p ∷ ps) =
      (if not (bitmap_isset ngx.int_t_len map p.id) then 1 else 0) + copy_count map ps

  -- The copying pass: `h[pos++] = prev_h[j]`.
  pub copy_rules : Bitmap → List (HeaderVal H S) → ℕ → List (HeaderVal H S) → List (HeaderVal H S)
  copy_rules map [] pos h = h
  copy_rules map (p ∷ ps) pos h =
      copy_rules map ps (if not (bitmap_isset ngx.int_t_len map p.id) then suc pos else pos)
        (if not (bitmap_isset ngx.int_t_len map p.id) then set h pos p else h)

  -- The rest of the merge, once the array has its new cells. A failed `ngx_array_push_n` is not
  -- looked at: `none` is the write past the end of the old array that follows.
  finish :
      Bitmap
      → ℕ
      → List (HeaderVal H S)
      → Option (List (HeaderVal H S))
      → Option (List (HeaderVal H S) × ℕ)
  unfolding copy_rules reindex
  finish map orig_len prev none = none
  finish map orig_len prev (some h) =
      let merged = reindex 0 (copy_rules map prev orig_len h) in some (merged, length merged)

  unfoldable pub merge_one_array :
      MergePool H S
      → (curr prev : List (HeaderVal H S)) → (prev_cnt : ℕ) → Option (List (HeaderVal H S) × ℕ)
  unfolding disable copy_count finish
  merge_one_array pool curr prev prev_cnt =
      let map = disable curr prev (bitmap_init ngx.int_t_len pool.bits_granted prev_cnt) in
      let count = copy_count map prev in
      if ltb 0 count
      then finish map (length curr) prev (pool.array_push_n curr count)
      else (let merged = reindex 0 curr in some (merged, length merged))

  -- One direction of `merge_loc_conf`: an array that is missing or empty is replaced by the
  -- parent's, and two arrays with rules are merged.
  unfoldable pub merge_headers :
      MergePool H S
      → (curr : Option (List (HeaderVal H S))) (curr_cnt : ℕ)
      → (prev : Option (List (HeaderVal H S))) (prev_cnt : ℕ)
      → Option (Option (List (HeaderVal H S)) × ℕ)
  unfolding merge_one_array
  merge_headers pool none curr_cnt prev prev_cnt = some (prev, prev_cnt)
  merge_headers pool (some []) curr_cnt prev prev_cnt = some (prev, prev_cnt)
  merge_headers pool (some (h ∷ hs)) curr_cnt none prev_cnt = some (some (h ∷ hs), curr_cnt)
  merge_headers pool (some (h ∷ hs)) curr_cnt (some []) prev_cnt = some (some (h ∷ hs), curr_cnt)
  merge_headers pool (some (h ∷ hs)) curr_cnt (some (p ∷ ps)) prev_cnt =
      elim (merge_one_array pool (h ∷ hs) (p ∷ ps) prev_cnt) [
        | none ↦ none
        | some (merged, cnt) ↦ some (some merged, cnt)
      ]

-- `merge_loc_conf`: the response rules first, then the request rules.
module _ (ngx : Ngx) {HI SI HO SO : Type 0} where
  unfoldable pub merge_loc_conf :
      MergePool HO SO
      → MergePool HI SI
      → (parent child : LocConf HI SI HO SO) → Option (LocConf HI SI HO SO)
  unfolding merge_headers
  merge_loc_conf out_pool in_pool prev conf = do
    (out, out_cnt) ←
        merge_headers ngx out_pool conf.headers_out conf.headers_out_cnt prev.headers_out
          prev.headers_out_cnt
    (inp, in_cnt) ←
        merge_headers ngx in_pool conf.headers_in conf.headers_in_cnt prev.headers_in
          prev.headers_in_cnt
    some (record {
      headers_in = inp;
      headers_out = out;
      headers_in_cnt = in_cnt;
      headers_out_cnt = out_cnt;
    })
