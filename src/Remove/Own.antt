-- ===== src/Remove/Own.antt =====
-- The removal of the only element of the part that lies inside the list.
use ngx_http_headers_control.Common.{
  ℕ, ◌+◌, ◌-◌, ◌≡◌, refl, ◌∙◌, true, false, Option, some, List, [], ◌∷◌, ◌==◌, if◌then◌else◌, drop,
  NotIn, Distinct, arith,
}
use ngx_http_headers_control.Ngx.{rc_ok}
use ngx_http_headers_control.Request.{Part, Heap, HeaderList, write_part}
use ngx_http_headers_control.Request.Store.{write_ne, write_self}
use ngx_http_headers_control.Remove.{
  dec_size, same_ptr, Removed, remove_last, remove_empty, remove_first, rm_header_helper,
}
use ngx_http_headers_control.Remove.Parts.{
  RemovedAt, IsLinked, AgreeOn, AgreeOn-write_part, AgreeOn-trans, IsLinked-agree, elements-agree,
}
use ngx_http_headers_control.Remove.Before.{end_of, end_of-ne}

module _ (l : HeaderList) (heap : Heap) (pool : List (Option ℕ)) where
  abbrev own : Part
  own = heap.parts l.part

  abbrev shifted : Part
  shifted = record own { elts = own.elts + 1; nelts = dec_size own.nelts }

  abbrev heap₁ : Heap
  heap₁ = write_part heap l.part shifted

  last_lem :
      (l' : HeaderList) (q : ℕ) (qs : List ℕ)
      → l.last ≡ some (end_of q qs)
      → l'.last ≡ some l.part
      → NotIn q qs
      → (if same_ptr l.last (some q) then l' else l).last ≡ some (end_of l.part qs)
  last_lem l' q [] ends moved out =
      let same : (q == q) ≡ true = ground arith in
      let hit : same_ptr l.last (some q) ≡ true = rw ends same in rw hit moved
  last_lem l' q (x ∷ qs) ends moved out =
      let differs : (end_of x qs == q) ≡ false = ground (arith, end_of-ne q x qs out) in
      let miss : same_ptr l.last (some q) ≡ false = rw ends differs in rw miss ends

  -- In a list whose parts are linked and stand once each, with the last one in last, the removal
  -- of the only element of the first part succeeds: exactly that element leaves the list and the
  -- others keep their order, the parts are the first one and those behind the second one, and last
  -- points to the last of them.
  pub rm_header_helper-own :
      (fuel : ℕ) (post : List ℕ)
      → own.nelts ≡ 1
      → IsLinked heap (some l.part) (l.part ∷ post)
      → Distinct (l.part ∷ post)
      → l.last ≡ some (end_of l.part post)
      → (result : Removed) × (rm_header_helper fuel l heap pool l.part 0 ≡ some result)
        × RemovedAt heap l.part [] post l.part 0 (l.part ∷ drop 1 post) result
        × (result.list.last ≡ some (end_of l.part (drop 1 post)))
  unfolding rm_header_helper remove_first
  rm_header_helper-own fuel [] single linked distinct ends = (
    record { rc = rc_ok; list = l; heap = heap₂; pool = pool },
    rw (is_last, remove_last, same, empty) refl,
    record {
      succeeds = refl;
      linked = (refl, rw at_own linked.1);
      left = rw (at_own, single) refl;
    },
    ends,
  )
    where
      same : (l.part == l.part) ≡ true
      same = ground arith

      is_last : same_ptr (some l.part) l.last ≡ true
      is_last = rw ends same

      empty : (dec_size own.nelts == 0) ≡ true
      empty = rw single refl

      heap₂ : Heap
      heap₂ =
          write_part heap₁ l.part
            (record (heap₁.parts l.part) { elts = (heap₁.parts l.part).elts - 1 })

      at_own : heap₂.parts l.part ≡ record shifted { elts = shifted.elts - 1 }
      at_own =
          write_self heap₁.parts l.part
            (record (heap₁.parts l.part) { elts = (heap₁.parts l.part).elts - 1 })
          ∙ rw (write_self heap.parts l.part shifted) refl
  rm_header_helper-own fuel (q ∷ qs) single linked distinct ends = (
    record {
      rc = rc_ok;
      list =
          if same_ptr l.last (some q)
          then record l { last = some l.part; nalloc = (heap₁.parts q).nelts }
          else l;
      heap = heap₂;
      pool = pool;
    },
    rw (not_last, empty, remove_empty, same) (simp linked.1.0 refl),
    record {
      succeeds = refl;
      linked = chain;
      left = rw (at_own, single, elements-agree heap heap₂ qs behind) refl;
    },
    last_lem _ q qs ends refl distinct.1.0,
  )
    where
      same : (l.part == l.part) ≡ true
      same = ground arith

      differs : (l.part == end_of q qs) ≡ false
      differs = ground (arith, end_of-ne l.part q qs distinct.0)

      not_last : same_ptr (some l.part) l.last ≡ false
      not_last = rw ends differs

      empty : (dec_size own.nelts == 0) ≡ true
      empty = rw single refl

      heap₂ : Heap
      heap₂ = write_part heap₁ l.part (heap₁.parts q)

      at_own : heap₂.parts l.part ≡ heap.parts q
      at_own =
          write_self heap₁.parts l.part (heap₁.parts q)
          ∙ write_ne heap.parts l.part q shifted distinct.0.0

      behind : AgreeOn heap heap₂ qs
      behind =
          AgreeOn-trans heap heap₁ heap₂ qs (AgreeOn-write_part heap l.part shifted qs distinct.0.1)
            (AgreeOn-write_part heap₁ l.part (heap₁.parts q) qs distinct.0.1)

      chain : IsLinked heap₂ (some l.part) (l.part ∷ qs)
      chain = (refl, rw at_own (IsLinked-agree heap heap₂ (heap.parts q).next qs behind linked.1.1))
