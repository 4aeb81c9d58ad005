-- ===== src/Tests/Removal.antt =====
-- Lists of two parts, and elements that leave them.
use ngx_http_headers_control.Common.{
  ℕ, ◌≡◌, refl, none, some, List, [], ◌∷◌, ◌==◌, if◌then◌else◌, arith,
}
use ngx_http_headers_control.Request.{Cursor, at_cursor, walk}
use ngx_http_headers_control.Request.Walk.{walk-elements}
use ngx_http_headers_control.Common.{map}
use ngx_http_headers_control.Request.{Heap, HeaderList}
use ngx_http_headers_control.Remove.{Removed, rm_header_helper}
use ngx_http_headers_control.Remove.Inner.{rm_header_helper-inner}
use ngx_http_headers_control.Remove.Parts.{RemovedAt}
use ngx_http_headers_control.Remove.Emptied.{rm_header_helper-emptied}
use ngx_http_headers_control.Remove.Own.{rm_header_helper-own}

-- The list's own part at the address 0 with the elements from 4 on, and one at 10 with those from
-- 20 on.
abbrev heap : (own other : ℕ) → Heap
heap own other = record {
  parts = λ p.
      if p == 0
      then record { elts = 4; nelts = own; next = some 10 }
      else record { elts = 20; nelts = other; next = none };
  elt = λ a. record { hash = 7; key = []; value = []; lowcase_key = []; next = none };
}

abbrev list : HeaderList
list = record { part = 0; last = some 10; nalloc = 4 }

rm_header_helper-inner_example :
    (result : Removed) × (rm_header_helper 5 list (heap 3 1) (some 30 ∷ []) 0 1 ≡ some result)
    × RemovedAt (heap 3 1) 0 [] (10 ∷ []) 0 1 (0 ∷ 30 ∷ 10 ∷ []) result
rm_header_helper-inner_example =
    rm_header_helper-inner list (heap 3 1) (some 30 ∷ []) [] (10 ∷ []) 0 (refl, (refl, refl))
      ((omega arith, tt), (tt, tt)) 5 1 30 [] (omega arith) (omega arith) refl
      (omega arith, (omega arith, tt))

rm_header_helper-emptied_example :
    (result : Removed) × (rm_header_helper 5 list (heap 3 1) [] 10 0 ≡ some result)
    × RemovedAt (heap 3 1) 0 (0 ∷ []) [] 10 0 (0 ∷ []) result
    × (result.list.last ≡ some 0)
rm_header_helper-emptied_example =
    rm_header_helper-emptied list (heap 3 1) [] 10 5 [] 0 [] refl (omega arith) (refl, (refl, refl))
      ((omega arith, tt), (tt, tt)) refl

rm_header_helper-own_example :
    (result : Removed) × (rm_header_helper 5 list (heap 1 2) [] 0 0 ≡ some result)
    × RemovedAt (heap 1 2) 0 [] (10 ∷ []) 0 0 (0 ∷ []) result
    × (result.list.last ≡ some 0)
rm_header_helper-own_example =
    rm_header_helper-own list (heap 1 2) [] 5 (10 ∷ []) refl (refl, (refl, refl))
      ((omega arith, tt), (tt, tt)) refl

walk-elements_example :
    (cursors : List Cursor) × (walk 5 (heap 3 1) 0 0 ≡ some cursors)
    × (map (at_cursor (heap 3 1)) cursors ≡ 4 ∷ 5 ∷ 6 ∷ 20 ∷ [])
walk-elements_example =
    walk-elements (heap 3 1) 5 0 (10 ∷ []) (refl, (refl, refl)) (omega arith, tt) (omega arith)
