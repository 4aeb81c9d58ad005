-- ===== src/Remove/Emptied.antt =====
-- The removal of the only element of a part.
use ngx_http_headers_control.Common.{
  ℕ, ◌+◌, ◌<◌, ◌≡◌, refl, ◌∙◌, true, false, Option, none, some, List, [], ◌∷◌, ◌++◌, ◌==◌,
  append_assoc, append-nil, length, NotIn, Distinct, arith,
}
use ngx_http_headers_control.Ngx.{rc_ok}
use ngx_http_headers_control.Request.{Part, Heap, HeaderList, write_part}
use ngx_http_headers_control.Request.Store.{write_ne, write_self}
use ngx_http_headers_control.Remove.{
  dec_size, same_ptr, Removed, remove_last, remove_empty, remove_first, rm_header_helper,
}
use ngx_http_headers_control.Remove.Parts.{
  RemovedAt, IsLinked, range, elements, AgreeOn, AgreeOn-write_part, AgreeOn-trans, IsLinked-agree,
  elements-agree, IsLinked-splice, IsLinked-behind, elements-append, NotIn-append_front,
  NotIn-append_back, Distinct-back, Distinct-middle,
}
use ngx_http_headers_control.Remove.Before.{end_of, end_of-ne, part_before-write_part, first_ne}

module _ (l : HeaderList) (heap : Heap) (pool : List (Option ℕ)) (cur : ℕ) (post : List ℕ)
    (single : (heap.parts cur).nelts ≡ 1) where
  abbrev shifted : Part
  shifted = record (heap.parts cur) {
    elts = (heap.parts cur).elts + 1;
    nelts = dec_size (heap.parts cur).nelts;
  }

  abbrev heap₁ : Heap
  heap₁ = write_part heap cur shifted

  abbrev behind_prev : ℕ → Heap
  behind_prev prev =
      write_part heap₁ prev (record (heap₁.parts prev) { next = (heap.parts cur).next })

  -- The chain without the part, behind the part `prev`.
  unlinked :
      (xs : List ℕ) (prev : ℕ) (result : Removed)
      → IsLinked heap (some l.part) (xs ++ prev ∷ (cur ∷ post))
      → Distinct (xs ++ prev ∷ (cur ∷ post))
      → NotIn cur (xs ++ prev ∷ [])
      → result.rc ≡ rc_ok
      → result.heap ≡ behind_prev prev
      → RemovedAt heap l.part (xs ++ prev ∷ []) post cur 0 (xs ++ prev ∷ post) result
  unlinked xs prev result linked distinct apart ok store = record {
    succeeds = ok;
    linked = rw store (
        IsLinked-splice heap heap₂ (some l.part) xs (cur ∷ post) (prev ∷ post) prev before linked (
          refl,
          rw at_prev (
              IsLinked-agree heap heap₂ (heap.parts cur).next post behind
                (IsLinked-behind heap (some l.part) xs (cur ∷ post) prev linked).1),
        ));
    left = rw store (
        elements-append heap₂ xs (prev ∷ post)
        ∙ rw
            (
              elements-agree heap heap₂ xs before,
              elements-agree heap heap₂ post behind,
              at_prev,
              elements-append heap xs (prev ∷ []),
              single,
              append-nil (range (heap.parts prev).elts (heap.parts prev).nelts),
              append_assoc (elements heap xs) (range (heap.parts prev).elts (heap.parts prev).nelts)
                  (elements heap post),
            )
            refl);
  }
    where
      heap₂ : Heap
      heap₂ = behind_prev prev

      before : AgreeOn heap heap₂ xs
      before =
          AgreeOn-trans heap heap₁ heap₂ xs
            (AgreeOn-write_part heap cur shifted xs (NotIn-append_front cur xs (prev ∷ []) apart))
            (AgreeOn-write_part heap₁ prev
              (record (heap₁.parts prev) { next = (heap.parts cur).next }) xs
              (Distinct-middle prev xs (cur ∷ post) distinct).0)

      behind : AgreeOn heap heap₂ post
      behind =
          AgreeOn-trans heap heap₁ heap₂ post
            (AgreeOn-write_part heap cur shifted post
              (Distinct-back xs (prev ∷ (cur ∷ post)) distinct).1.0)
            (AgreeOn-write_part heap₁ prev
              (record (heap₁.parts prev) { next = (heap.parts cur).next }) post
              (Distinct-middle prev xs (cur ∷ post) distinct).1.1)

      at_prev : heap₂.parts prev ≡ record (heap.parts prev) { next = (heap.parts cur).next }
      at_prev =
          write_self heap₁.parts prev (record (heap₁.parts prev) { next = (heap.parts cur).next })
          ∙ rw (write_ne heap.parts cur prev shifted (NotIn-append_back cur xs (prev ∷ []) apart).0)
              refl

module _ (l : HeaderList) (heap : Heap) (pool : List (Option ℕ)) (cur : ℕ) where
  -- The two ends of the search, by whether the part is the last one.
  emptied :
      (fuel : ℕ) (xs : List ℕ) (prev : ℕ) (post : List ℕ) (single : (heap.parts cur).nelts ≡ 1)
      → length xs < fuel
      → IsLinked heap (some l.part) ((xs ++ prev ∷ []) ++ cur ∷ post)
      → Distinct ((xs ++ prev ∷ []) ++ cur ∷ post)
      → (result : Removed) → rm_header_helper fuel l heap pool cur 0 ≡ some result
      → result.rc ≡ rc_ok
      → result.heap ≡ behind_prev l heap pool cur post single prev
      → result.list.last ≡ some (end_of prev post)
      → (result : Removed) × (rm_header_helper fuel l heap pool cur 0 ≡ some result)
        × RemovedAt heap l.part (xs ++ prev ∷ []) post cur 0 (xs ++ prev ∷ post) result
        × (result.list.last ≡ some (end_of prev post))
  emptied fuel xs prev post single enough linked distinct result ran ok store ends = (
    result,
    ran,
    unlinked l heap pool cur post single xs prev result
        (rw (append_assoc xs (prev ∷ []) (cur ∷ post)) at linked)
        (rw (append_assoc xs (prev ∷ []) (cur ∷ post)) at distinct)
        (Distinct-middle cur (xs ++ prev ∷ []) post distinct).0 ok store,
    ends,
  )

  -- In a list whose parts are linked and stand once each, with the last one in last and enough
  -- fuel for the search, the removal of the only element of a part behind the first one succeeds:
  -- the parts are the others in their order, exactly the elements of those are left, in their
  -- order, and last points to the last part again.
  pub rm_header_helper-emptied :
      (fuel : ℕ) (xs : List ℕ) (prev : ℕ) (post : List ℕ)
      → (heap.parts cur).nelts ≡ 1
      → length xs < fuel
      → IsLinked heap (some l.part) ((xs ++ prev ∷ []) ++ cur ∷ post)
      → Distinct ((xs ++ prev ∷ []) ++ cur ∷ post)
      → l.last ≡ some (end_of cur post)
      → (result : Removed) × (rm_header_helper fuel l heap pool cur 0 ≡ some result)
        × RemovedAt heap l.part (xs ++ prev ∷ []) post cur 0 (xs ++ prev ∷ post) result
        × (result.list.last ≡ some (end_of prev post))
  unfolding rm_header_helper remove_first
  rm_header_helper-emptied fuel xs prev post single enough linked distinct ends =
      split_last post linked distinct ends
    where
      same : (cur == cur) ≡ true
      same = ground arith

      empty : (dec_size (heap.parts cur).nelts == 0) ≡ true
      empty = rw single refl

      split_last :
          (post : List ℕ)
          → IsLinked heap (some l.part) ((xs ++ prev ∷ []) ++ cur ∷ post)
          → Distinct ((xs ++ prev ∷ []) ++ cur ∷ post)
          → l.last ≡ some (end_of cur post)
          → (result : Removed) × (rm_header_helper fuel l heap pool cur 0 ≡ some result)
            × RemovedAt heap l.part (xs ++ prev ∷ []) post cur 0 (xs ++ prev ∷ post) result
            × (result.list.last ≡ some (end_of prev post))
      split_last [] linked distinct ends =
          let is_last : same_ptr (some cur) l.last ≡ true = rw ends same in
          let away =
            first_ne heap l.part xs (cur ∷ []) prev cur
              (rw (append_assoc xs (prev ∷ []) (cur ∷ [])) at linked)
              (Distinct-middle cur (xs ++ prev ∷ []) [] distinct).0 in
          let before =
            part_before-write_part fuel heap l.part xs [] prev cur
              (shifted l heap pool cur [] single) refl enough linked distinct in
          emptied fuel xs prev [] single enough linked distinct
            (record {
              rc = rc_ok;
              list = record l {
                last = some prev;
                nalloc = ((heap₁ l heap pool cur [] single).parts prev).nelts;
              };
              heap =
                  write_part (heap₁ l heap pool cur [] single) prev
                    (record ((heap₁ l heap pool cur [] single).parts prev) { next = none });
              pool = pool;
            })
            (rw (is_last, remove_last, same, empty, away, before) refl) refl
            (rw (IsLinked-behind heap (some l.part) (xs ++ prev ∷ []) [] cur linked) refl) refl
      split_last (q ∷ qs) linked distinct ends =
          let apart = Distinct-middle cur (xs ++ prev ∷ []) (q ∷ qs) distinct in
          let ne = end_of-ne cur q qs apart.1 in
          let differs : (cur == end_of q qs) ≡ false = ground (arith, ne) in
          let not_last : same_ptr (some cur) l.last ≡ false = rw ends differs in
          let away =
            first_ne heap l.part xs (cur ∷ (q ∷ qs)) prev cur
              (rw (append_assoc xs (prev ∷ []) (cur ∷ (q ∷ qs))) at linked) apart.0 in
          let before =
            part_before-write_part fuel heap l.part xs (q ∷ qs) prev cur
              (shifted l heap pool cur (q ∷ qs) single) refl enough linked distinct in
          emptied fuel xs prev (q ∷ qs) single enough linked distinct
            (record {
              rc = rc_ok;
              list = l;
              heap = behind_prev l heap pool cur (q ∷ qs) single prev;
              pool = pool;
            })
            (rw
              (
                not_last,
                empty,
                remove_empty,
                away,
                before,
                write_self heap.parts cur (shifted l heap pool cur (q ∷ qs) single),
              )
              refl)
            refl refl ends
