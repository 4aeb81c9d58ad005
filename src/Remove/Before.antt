-- ===== src/Remove/Before.antt =====
-- The search of `rm_header_helper` for the part before another, and the ends of a chain.
use ngx_http_headers_control.Common.{
  ℕ, zero, suc, ◌<◌, ◌≡◌, ◌≢◌, refl, ap, true, false, some, List, [], ◌∷◌, ◌++◌, ◌==◌, append_assoc,
  length, NotIn, Distinct, arith,
}
use ngx_http_headers_control.Request.{Part, Heap, write_part}
use ngx_http_headers_control.Request.Store.{write_self}
use ngx_http_headers_control.Remove.{part_before}
use ngx_http_headers_control.Remove.Parts.{
  IsLinked, AgreeOn-write_part, IsLinked-agree, IsLinked-splice, IsLinked-behind, Distinct-middle,
}

-- The last part of a chain that begins with a part.
abbrev pub end_of : ℕ → List ℕ → ℕ
end_of cur [] = cur
end_of cur (q ∷ qs) = end_of q qs

pub end_of-ne : (cur q : ℕ) (qs : List ℕ) → NotIn cur (q ∷ qs) → cur ≢ end_of q qs
end_of-ne cur q [] out = out.0
end_of-ne cur q (x ∷ qs) out = end_of-ne cur x qs out.1

-- The search for the part before `cur` finds it.
part_before_lem :
    (fuel : ℕ) (heap : Heap) (first : ℕ) (xs post : List ℕ) (prev cur : ℕ)
    → length xs < fuel
    → IsLinked heap (some first) (xs ++ prev ∷ (cur ∷ post))
    → NotIn cur (xs ++ prev ∷ [])
    → part_before fuel heap first cur ≡ some (some prev)
unfolding part_before
part_before_lem zero heap first xs post prev cur enough l out = elim enough [ ]
part_before_lem (suc fuel) heap first [] post prev cur enough l out =
    let here : first ≡ prev = ground (arith, l.0) in
    let same : (cur == cur) ≡ true = ground arith in
    rw (here, l.1.0, same, part_before) (ap (λ t. some (some t)) here)
part_before_lem (suc fuel) heap first (x ∷ []) post prev cur enough l out =
    let here : first ≡ x = ground (arith, l.0) in
    let other : (prev == cur) ≡ false = ground (arith, out.1.0) in
    rw (here, l.1.0, other, part_before)
      (part_before_lem fuel heap prev [] post prev cur (omega arith) (refl, l.1.1) out.1)
part_before_lem (suc fuel) heap first (x ∷ (y ∷ xs)) post prev cur enough l out =
    let here : first ≡ x = ground (arith, l.0) in
    let other : (y == cur) ≡ false = ground (arith, out.1.0) in
    rw (here, l.1.0, other, part_before)
      (part_before_lem fuel heap y (y ∷ xs) post prev cur (omega arith) (refl, l.1.1) out.1)

pub first_ne :
    (heap : Heap) (first : ℕ) (xs ys : List ℕ) (prev cur : ℕ)
    → IsLinked heap (some first) (xs ++ prev ∷ ys)
    → NotIn cur (xs ++ prev ∷ [])
    → (first == cur) ≡ false
first_ne heap first [] ys prev cur l out = ground (arith, l.0, out.0)
first_ne heap first (x ∷ xs) ys prev cur l out = ground (arith, l.0, out.0)

-- The search on the store with the part changed in place.
pub part_before-write_part :
    (fuel : ℕ) (heap : Heap) (first : ℕ) (xs post : List ℕ) (prev cur : ℕ) (part : Part)
    → part.next ≡ (heap.parts cur).next
    → length xs < fuel
    → IsLinked heap (some first) ((xs ++ prev ∷ []) ++ cur ∷ post)
    → Distinct ((xs ++ prev ∷ []) ++ cur ∷ post)
    → part_before fuel (write_part heap cur part) first cur ≡ some (some prev)
part_before-write_part fuel heap first xs post prev cur part same enough linked distinct =
    part_before_lem fuel heap' first xs post prev cur enough
      (rw (append_assoc xs (prev ∷ []) (cur ∷ post)) at again) apart.0
  where
    heap' : Heap
    heap' = write_part heap cur part

    apart : NotIn cur (xs ++ prev ∷ []) × NotIn cur post
    apart = Distinct-middle cur (xs ++ prev ∷ []) post distinct

    behind : IsLinked heap' (heap.parts cur).next post
    behind =
        IsLinked-agree heap heap' (heap.parts cur).next post
          (AgreeOn-write_part heap cur part post apart.1)
          (IsLinked-behind heap (some first) (xs ++ prev ∷ []) post cur linked)

    again : IsLinked heap' (some first) ((xs ++ prev ∷ []) ++ cur ∷ post)
    again =
        IsLinked-splice heap heap' (some first) (xs ++ prev ∷ []) post (cur ∷ post) cur
          (AgreeOn-write_part heap cur part (xs ++ prev ∷ []) apart.0) linked
          (refl, rw (write_self heap.parts cur part, same) behind)
