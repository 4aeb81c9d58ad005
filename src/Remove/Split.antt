-- ===== src/Remove/Split.antt =====
-- The removal of an element from the middle of its part.
use ngx_http_headers_control.Common.{
  ℕ, ◌+◌, ◌-◌, ◌<◌, ◌≡◌, ◌≢◌, refl, sym, ap, ◌∙◌, Option, some, List, ◌∷◌, ◌++◌, append_assoc, leb,
  true, NotIn, Distinct, arith,
}
use ngx_http_headers_control.Request.{Part, Heap, HeaderList, write_part}
use ngx_http_headers_control.Request.Store.{write_ne, write_self}
use ngx_http_headers_control.Remove.{sub_size, split}
use ngx_http_headers_control.Remove.Parts.{
  IsLinked, RemovedAt, range, elements, remove_at-range, AgreeOn, AgreeOn-write_part, AgreeOn-trans,
  IsLinked-agree, elements-agree, IsLinked-splice, IsLinked-behind, elements-append,
  NotIn-append_front, NotIn-append_back, Distinct-middle,
}

sub_size-exact : (n i : ℕ) → i < n → sub_size n (i + 1) ≡ n - i - 1
sub_size-exact n i lt = let within : leb (i + 1) n ≡ true = ground arith in rw within (omega arith)

module _ (l : HeaderList) (heap : Heap) (pre post : List ℕ) (cur : ℕ)
    (linked : IsLinked heap (some l.part) (pre ++ cur ∷ post))
    (distinct : Distinct (pre ++ cur ∷ post)) where
  -- The part is split, and the new part stands behind it.
  pub split-RemovedAt :
      (i new : ℕ) (rest : List (Option ℕ))
      → i < (heap.parts cur).nelts
      → NotIn new (pre ++ cur ∷ post)
      → RemovedAt heap l.part pre post cur i
          (pre ++ cur ∷ (new ∷ post))
          (split l heap (some new ∷ rest) cur i)
  unfolding split
  split-RemovedAt i new rest lt fresh = record {
    succeeds = refl;
    linked =
        IsLinked-splice heap heap' (some l.part) pre post (cur ∷ (new ∷ post)) cur before linked (
          refl,
          rw at_cur (
            refl,
            rw at_new (
                IsLinked-agree heap heap' (heap.parts cur).next post behind
                  (IsLinked-behind heap (some l.part) pre post cur linked)),
          ),
        );
    left =
        elements-append heap' pre (cur ∷ (new ∷ post))
        ∙ rw
            (
              elements-agree heap heap' pre before,
              elements-agree heap heap' post behind,
              at_cur,
              at_new,
              remove_at-range i (heap.parts cur).elts (heap.parts cur).nelts lt,
              sub_size-exact (heap.parts cur).nelts i lt,
            )
            (ap (λ t. elements heap pre ++ t)
              (sym (
                append_assoc (range (heap.parts cur).elts i)
                  (range ((heap.parts cur).elts + (i + 1)) ((heap.parts cur).nelts - i - 1))
                  (elements heap post))));
  }
    where
      tail : Part
      tail = record {
        elts = (heap.parts cur).elts + (i + 1);
        nelts = sub_size (heap.parts cur).nelts (i + 1);
        next = (heap.parts cur).next;
      }

      shorter : Part
      shorter = record (heap.parts cur) { nelts = i; next = some new }

      heap' : Heap
      heap' = write_part (write_part heap new tail) cur shorter

      at_cur : heap'.parts cur ≡ shorter
      at_cur = write_self (write_part heap new tail).parts cur shorter

      apart : cur ≢ new
      apart e = (NotIn-append_back new pre (cur ∷ post) fresh).0 (sym e)

      at_new : heap'.parts new ≡ tail
      at_new =
          write_ne (write_part heap new tail).parts cur new shorter apart
          ∙ write_self heap.parts new tail

      before : AgreeOn heap heap' pre
      before =
          AgreeOn-trans heap (write_part heap new tail) heap' pre
            (AgreeOn-write_part heap new tail pre (NotIn-append_front new pre (cur ∷ post) fresh))
            (AgreeOn-write_part (write_part heap new tail) cur shorter pre
              (Distinct-middle cur pre post distinct).0)

      behind : AgreeOn heap heap' post
      behind =
          AgreeOn-trans heap (write_part heap new tail) heap' post
            (AgreeOn-write_part heap new tail post (NotIn-append_back new pre (cur ∷ post) fresh).1)
            (AgreeOn-write_part (write_part heap new tail) cur shorter post
              (Distinct-middle cur pre post distinct).1)
