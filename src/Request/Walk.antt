-- ===== src/Request/Walk.antt =====
-- The loop over a header list comes to its end, and visits the elements of the list.
use ngx_http_headers_control.Common.{
  ℕ, zero, suc, ◌+◌, ◌-◌, ◌<◌, ◌≤◌, ◌≡◌, refl, sym, ap, ◌∙◌, inl, inr, true, some, List, [], ◌∷◌,
  ◌++◌, leb, Bool-cases, length, map, arith,
}
use ngx_http_headers_control.Request.{Heap, Cursor, at_cursor, walk}
use ngx_http_headers_control.Remove.Parts.{IsLinked, range, elements}

-- The parts hold at least one element each.
abbrev pub AllFilled : Heap → List ℕ → Type 0
AllFilled heap [] = Unit
AllFilled heap (q ∷ qs) = (0 < (heap.parts q).nelts) × AllFilled heap qs

-- What is left to visit from an index of a part on.
abbrev left_from : Heap → (part index : ℕ) → List ℕ → List ℕ
left_from heap p i qs =
    range ((heap.parts p).elts + i) ((heap.parts p).nelts - i) ++ elements heap qs

range-cons : (e n i : ℕ) → i < n → range (e + i) (n - i) ≡ (e + i) ∷ range (e + suc i) (n - suc i)
range-cons e n i lt =
    let more : n - i ≡ suc (n - suc i) = omega arith in
    let next : suc (e + i) ≡ e + suc i = omega arith in rw (more, next) refl

range-end : (e n i : ℕ) → n ≤ i → range (e + i) (n - i) ≡ []
range-end e n i le = let over : n - i ≡ 0 = omega arith in rw over refl

module _ (heap : Heap) where
  walk-left_from :
      (fuel p i : ℕ) (qs : List ℕ)
      → IsLinked heap (heap.parts p).next qs
      → AllFilled heap qs
      → length (left_from heap p i qs) < fuel
      → (cursors : List Cursor) × (walk fuel heap p i ≡ some cursors)
        × (map (at_cursor heap) cursors ≡ left_from heap p i qs)
  unfolding walk
  walk-left_from zero p i qs linked filled enough = elim enough [ ]
  walk-left_from (suc fuel) p i qs linked filled enough =
      elim (Bool-cases (leb (heap.parts p).nelts i)) [
        | inr inside ↦
            let here = range-cons (heap.parts p).elts (heap.parts p).nelts i (ground arith) in
            let flat : left_from heap p i qs
                ≡ ((heap.parts p).elts + i) ∷ left_from heap p (suc i) qs =
              rw here refl in
            let shorter = rw flat at enough in
            let (rest, ran, visited) =
              walk-left_from fuel p (suc i) qs linked filled (omega (arith, shorter)) in
            (
              record { part = p; index = i } ∷ rest,
              rw (inside, ran, walk) refl,
              ap (λ t. ((heap.parts p).elts + i) ∷ t) visited ∙ sym flat,
            )
        | inl over ↦ behind qs linked filled over enough (λ q rest. walk-left_from fuel q 1 rest)
      ]
    where
      behind :
          (qs : List ℕ)
          → IsLinked heap (heap.parts p).next qs
          → AllFilled heap qs
          → leb (heap.parts p).nelts i ≡ true
          → length (left_from heap p i qs) < suc fuel
          → ((q : ℕ) (rest : List ℕ)
              → IsLinked heap (heap.parts q).next rest
              → AllFilled heap rest
              → length (left_from heap q 1 rest) < fuel
              → (cursors : List Cursor) × (walk fuel heap q 1 ≡ some cursors)
                × (map (at_cursor heap) cursors ≡ left_from heap q 1 rest))
          → (cursors : List Cursor) × (walk (suc fuel) heap p i ≡ some cursors)
            × (map (at_cursor heap) cursors ≡ left_from heap p i qs)
      behind [] linked filled over enough again =
          let done = range-end (heap.parts p).elts (heap.parts p).nelts i (ground arith) in
          ([], rw (over, linked, walk) refl, rw done refl)
      behind (q ∷ qs) linked filled over enough again =
          let done = range-end (heap.parts p).elts (heap.parts p).nelts i (ground arith) in
          let base : (heap.parts q).elts + 0 ≡ (heap.parts q).elts = omega arith in
          let whole : (heap.parts q).nelts - 0 ≡ (heap.parts q).nelts = omega arith in
          let first =
            rw whole at (range-cons (heap.parts q).elts (heap.parts q).nelts 0 filled.0) in
          let begins : range (heap.parts q).elts (heap.parts q).nelts
              ≡ ((heap.parts q).elts + 0)
                ∷ range ((heap.parts q).elts + 1) ((heap.parts q).nelts - 1) =
            ap (λ e. range e (heap.parts q).nelts) (sym base) ∙ first in
          let flat : left_from heap p i (q ∷ qs)
              ≡ ((heap.parts q).elts + 0) ∷ left_from heap q 1 qs =
            rw (done, begins) refl in
          let shorter = rw flat at enough in
          let (rest, ran, visited) = again q qs linked.1 filled.1 (omega (arith, shorter)) in
          (
            record { part = q; index = 0 } ∷ rest,
            rw (over, linked.0, ran, walk) refl,
            ap (λ t. ((heap.parts q).elts + 0) ∷ t) visited ∙ sym flat,
          )

  -- In a list whose parts are linked, and whose parts behind the first hold at least one element
  -- each, the loop over the list ends with more fuel than there are elements, and visits their
  -- addresses in order.
  pub walk-elements :
      (fuel p : ℕ) (qs : List ℕ)
      → IsLinked heap (some p) (p ∷ qs)
      → AllFilled heap qs
      → length (elements heap (p ∷ qs)) < fuel
      → (cursors : List Cursor) × (walk fuel heap p 0 ≡ some cursors)
        × (map (at_cursor heap) cursors ≡ elements heap (p ∷ qs))
  walk-elements fuel p qs linked filled enough =
      let base : (heap.parts p).elts + 0 ≡ (heap.parts p).elts = omega arith in
      let whole : (heap.parts p).nelts - 0 ≡ (heap.parts p).nelts = omega arith in
      let same : left_from heap p 0 qs ≡ elements heap (p ∷ qs) = rw (base, whole) refl in
      rw same at (walk-left_from fuel p 0 qs linked.1 filled (rw same enough))
