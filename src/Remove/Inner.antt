-- ===== src/Remove/Inner.antt =====
-- The removal of an element whose part keeps others.
use ngx_http_headers_control.Common.{
  ℕ, zero, suc, ◌+◌, ◌-◌, ◌<◌, ◌≤◌, ◌≡◌, refl, sym, ◌∙◌, inl, inr, true, false, Option, some, List,
  ◌∷◌, ◌++◌, ◌==◌, Bool-cases, append-nil, if◌then◌else◌, NotIn, Distinct, arith,
}
use ngx_http_headers_control.Ngx.{rc_ok}
use ngx_http_headers_control.Request.{Part, Heap, HeaderList, write_part}
use ngx_http_headers_control.Request.Store.{write_self}
use ngx_http_headers_control.Remove.{
  dec_size, same_ptr, Removed, remove_last, remove_first, split, rm_header_helper,
}
use ngx_http_headers_control.Remove.Split.{split-RemovedAt}
use ngx_http_headers_control.Remove.Parts.{
  IsLinked, RemovedAt, range, remove_at, remove_at-range, AgreeOn, AgreeOn-write_part,
  IsLinked-agree, elements-agree, IsLinked-splice, IsLinked-behind, elements-append,
  Distinct-middle,
}

pub dec_size-pos : (n : ℕ) → 0 < n → dec_size n ≡ n - 1
dec_size-pos zero pos = elim pos [ ]
dec_size-pos (suc n) pos = omega arith

-- The parts of the list behind the removal of the element `i` of `n`: one from the middle leaves
-- a new part behind `cur`.
abbrev pub parts_after : (pre post : List ℕ) (cur new i n : ℕ) → List ℕ
parts_after pre post cur new i n =
    if i == 0
    then pre ++ cur ∷ post
    else if i == n - 1
    then pre ++ cur ∷ post
    else pre ++ cur ∷ (new ∷ post)

module _ (l : HeaderList) (heap : Heap) (pool : List (Option ℕ)) (pre post : List ℕ) (cur : ℕ)
    (linked : IsLinked heap (some l.part) (pre ++ cur ∷ post))
    (distinct : Distinct (pre ++ cur ∷ post)) where
  -- The part is changed in place.
  in_place :
      (i e n : ℕ) (result : Removed)
      → result.rc ≡ rc_ok
      → result.heap
        ≡ write_part heap cur (record { elts = e; nelts = n; next = (heap.parts cur).next })
      → range e n ≡ remove_at i (range (heap.parts cur).elts (heap.parts cur).nelts)
      → RemovedAt heap l.part pre post cur i (pre ++ cur ∷ post) result
  in_place i e n result ok store same = record {
    succeeds = ok;
    linked = rw store (
        IsLinked-splice heap heap' (some l.part) pre post (cur ∷ post) cur before linked (
          refl,
          rw at_cur (
              IsLinked-agree heap heap' (heap.parts cur).next post behind
                (IsLinked-behind heap (some l.part) pre post cur linked)),
        ));
    left = rw store (
        elements-append heap' pre (cur ∷ post)
        ∙ rw
            (
              elements-agree heap heap' pre before,
              elements-agree heap heap' post behind,
              at_cur,
              same,
            )
            refl);
  }
    where
      part : Part
      part = record { elts = e; nelts = n; next = (heap.parts cur).next }

      heap' : Heap
      heap' = write_part heap cur part

      at_cur : heap'.parts cur ≡ part
      at_cur = write_self heap.parts cur part

      before : AgreeOn heap heap' pre
      before = AgreeOn-write_part heap cur part pre (Distinct-middle cur pre post distinct).0

      behind : AgreeOn heap heap' post
      behind = AgreeOn-write_part heap cur part post (Distinct-middle cur pre post distinct).1

  shrunk_front :
      0 < (heap.parts cur).nelts
      → range ((heap.parts cur).elts + 1) ((heap.parts cur).nelts - 1)
        ≡ remove_at 0 (range (heap.parts cur).elts (heap.parts cur).nelts)
  shrunk_front some_left =
      let count : (heap.parts cur).nelts - 0 - 1 ≡ (heap.parts cur).nelts - 1 = omega arith in
      rw (remove_at-range 0 (heap.parts cur).elts (heap.parts cur).nelts some_left, count) refl

  shrunk_back :
      (i : ℕ)
      → i < (heap.parts cur).nelts
      → (i == (heap.parts cur).nelts - 1) ≡ true
      → range (heap.parts cur).elts ((heap.parts cur).nelts - 1)
        ≡ remove_at i (range (heap.parts cur).elts (heap.parts cur).nelts)
  shrunk_back i lt last =
      let at_end : (heap.parts cur).nelts - 1 ≡ i = ground arith in
      let none_left : (heap.parts cur).nelts - i - 1 ≡ 0 = omega arith in
      rw (remove_at-range i (heap.parts cur).elts (heap.parts cur).nelts lt, none_left, at_end)
        (sym (append-nil (range (heap.parts cur).elts i)))

  -- The first element: the part begins one element later.
  remove_first-RemovedAt :
      (fuel : ℕ)
      → 2 ≤ (heap.parts cur).nelts
      → (result : Removed) × (remove_first fuel l heap pool cur ≡ some result)
        × RemovedAt heap l.part pre post cur 0 (pre ++ cur ∷ post) result
  unfolding remove_first remove_last
  remove_first-RemovedAt fuel many =
      let less = dec_size-pos (heap.parts cur).nelts (omega arith) in
      let kept : (dec_size (heap.parts cur).nelts == 0) ≡ false = ground (arith, less) in
      elim (Bool-cases (same_ptr (some cur) l.last)) [
        | inl last ↦ (
          record {
            rc = rc_ok;
            list = record l { nalloc = dec_size l.nalloc };
            heap = write_part heap cur shifted;
            pool = pool;
          },
          rw (last, write_self heap.parts cur shifted, kept) refl,
          in_place 0 ((heap.parts cur).elts + 1) (dec_size (heap.parts cur).nelts) _ refl refl
              (rw less (shrunk_front (omega arith))),
        )
        | inr other ↦ (
          record { rc = rc_ok; list = l; heap = write_part heap cur shifted; pool = pool },
          rw (other, kept) refl,
          in_place 0 ((heap.parts cur).elts + 1) (dec_size (heap.parts cur).nelts) _ refl refl
              (rw less (shrunk_front (omega arith))),
        )
      ]
    where
      shifted : Part
      shifted = record (heap.parts cur) {
        elts = (heap.parts cur).elts + 1;
        nelts = dec_size (heap.parts cur).nelts;
      }

  -- In a list whose parts are linked and stand once each, with memory for one more part at a fresh
  -- address, the removal of an element from a part that has at least two succeeds: the parts are
  -- the same ones in the same order, with the new one behind that part if the element is neither
  -- the first nor the last of it, exactly that element leaves the list, and the others keep their
  -- order.
  pub rm_header_helper-inner :
      (fuel i new : ℕ) (rest : List (Option ℕ))
      → 2 ≤ (heap.parts cur).nelts
      → i < (heap.parts cur).nelts
      → pool ≡ some new ∷ rest
      → NotIn new (pre ++ cur ∷ post)
      → (result : Removed) × (rm_header_helper fuel l heap pool cur i ≡ some result)
        × RemovedAt heap l.part pre post cur i
            (parts_after pre post cur new i (heap.parts cur).nelts)
            result
  unfolding rm_header_helper
  rm_header_helper-inner fuel i new rest many lt memory fresh =
      let less = dec_size-pos (heap.parts cur).nelts (omega arith) in
      elim (Bool-cases (i == 0)) [
        | inl first ↦
            let (result, ran, removed) = remove_first-RemovedAt fuel many in
            let zeroth : i ≡ 0 = ground arith in
            (result, rw first ran, rw first (rw zeroth removed))
        | inr later ↦ elim (Bool-cases (i == (heap.parts cur).nelts - 1)) [
          | inl last ↦ (
            record {
              rc = rc_ok;
              list =
                  if same_ptr (some cur) l.last
                  then record l { nalloc = dec_size (heap.parts cur).nelts }
                  else l;
              heap =
                  write_part heap cur
                    (record (heap.parts cur) { nelts = dec_size (heap.parts cur).nelts });
              pool = pool;
            },
            rw (later, less, last) refl,
            rw (later, last)
                (in_place i (heap.parts cur).elts (dec_size (heap.parts cur).nelts) _ refl refl
                  (rw less (shrunk_back i lt last))),
          )
          | inr inside ↦ (
            split l heap (some new ∷ rest) cur i,
            rw (later, less, inside, memory) refl,
            rw (later, inside)
                (split-RemovedAt l heap pre post cur linked distinct i new rest lt fresh),
          )
        ]
      ]
