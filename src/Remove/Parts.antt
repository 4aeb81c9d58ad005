-- ===== src/Remove/Parts.antt =====
-- A header list as a chain of parts, and the addresses of its elements in order.
use ngx_http_headers_control.Common.{
  ℕ, zero, suc, ◌+◌, ◌-◌, ◌<◌, ◌≡◌, refl, sym, ap, ◌∙◌, Option, none, some, List, [], ◌∷◌, ◌++◌,
  append_assoc, NotIn, Distinct, arith,
}
use ngx_http_headers_control.Request.{Part, Heap, write_part}
use ngx_http_headers_control.Ngx.{rc_ok}
use ngx_http_headers_control.Request.Store.{write_ne}
use ngx_http_headers_control.Remove.{Removed}

-- The parts at the addresses are linked in this order, from the pointer on.
abbrev pub IsLinked : Heap → Option ℕ → List ℕ → Type 0
IsLinked heap p [] = p ≡ none
IsLinked heap p (q ∷ qs) = (p ≡ some q) × IsLinked heap (heap.parts q).next qs

abbrev pub range : ℕ → ℕ → List ℕ
range e zero = []
range e (suc n) = e ∷ range (suc e) n

-- The addresses of the elements of the parts.
abbrev pub elements : Heap → List ℕ → List ℕ
elements heap [] = []
elements heap (q ∷ qs) = range (heap.parts q).elts (heap.parts q).nelts ++ elements heap qs

-- A list without its element at an index.
abbrev pub remove_at : ℕ → List ℕ → List ℕ
remove_at i [] = []
remove_at zero (x ∷ xs) = xs
remove_at (suc i) (x ∷ xs) = x ∷ remove_at i xs

-- The element `i` of the part `cur` left the list, and all others are there in their order: `parts`
-- are the parts of the list now.
pub record RemovedAt (heap : Heap) (first : ℕ) (pre post : List ℕ) (cur i : ℕ) (parts : List ℕ)
    (result : Removed) : Type 0 where
  pub succeeds : result.rc ≡ rc_ok
  pub linked : IsLinked result.heap (some first) parts
  pub left :
      elements result.heap parts
      ≡ elements heap pre
        ++ (remove_at i (range (heap.parts cur).elts (heap.parts cur).nelts) ++ elements heap post)

pub remove_at-range :
    (i e n : ℕ) → i < n → remove_at i (range e n) ≡ range e i ++ range (e + (i + 1)) (n - i - 1)
remove_at-range i e zero lt = elim lt [ ]
remove_at-range zero e (suc n) lt =
    let start : e + (0 + 1) ≡ suc e = omega arith in
    let rest : suc n - 0 - 1 ≡ n = omega arith in rw (start, rest) refl
remove_at-range (suc i) e (suc n) lt =
    let start : e + (suc i + 1) ≡ suc e + (i + 1) = omega arith in
    let rest : suc n - suc i - 1 ≡ n - i - 1 = omega arith in
    rw (start, rest) (ap (λ t. e ∷ t) (remove_at-range i (suc e) n (omega arith)))

-- Two stores hold the same parts at some addresses.
abbrev pub AgreeOn : Heap → Heap → List ℕ → Type 0
AgreeOn heap heap' [] = Unit
AgreeOn heap heap' (q ∷ qs) = (heap'.parts q ≡ heap.parts q) × AgreeOn heap heap' qs

pub AgreeOn-write_part :
    (heap : Heap) (a : ℕ) (part : Part) (qs : List ℕ)
    → NotIn a qs
    → AgreeOn heap (write_part heap a part) qs
AgreeOn-write_part heap a part [] out = tt
AgreeOn-write_part heap a part (q ∷ qs) out =
    (write_ne heap.parts a q part out.0, AgreeOn-write_part heap a part qs out.1)

pub AgreeOn-trans :
    (heap heap' heap'' : Heap) (qs : List ℕ)
    → AgreeOn heap heap' qs
    → AgreeOn heap' heap'' qs
    → AgreeOn heap heap'' qs
AgreeOn-trans heap heap' heap'' [] a b = tt
AgreeOn-trans heap heap' heap'' (q ∷ qs) a b =
    (b.0 ∙ a.0, AgreeOn-trans heap heap' heap'' qs a.1 b.1)

module _ (heap heap' : Heap) where
  pub IsLinked-agree :
      (p : Option ℕ) (qs : List ℕ)
      → AgreeOn heap heap' qs
      → IsLinked heap p qs
      → IsLinked heap' p qs
  IsLinked-agree p [] a l = l
  IsLinked-agree p (q ∷ qs) a l = (l.0, rw a.0 (IsLinked-agree (heap.parts q).next qs a.1 l.1))

  pub elements-agree : (qs : List ℕ) → AgreeOn heap heap' qs → elements heap' qs ≡ elements heap qs
  elements-agree [] a = refl
  elements-agree (q ∷ qs) a = rw (a.0, elements-agree qs a.1) refl

  -- A chain whose end, from the part `cur` on, is linked anew.
  pub IsLinked-splice :
      (p : Option ℕ) (pre post new : List ℕ) (cur : ℕ)
      → AgreeOn heap heap' pre
      → IsLinked heap p (pre ++ cur ∷ post)
      → IsLinked heap' (some cur) new
      → IsLinked heap' p (pre ++ new)
  IsLinked-splice p [] post new cur a l n = rw l.0 n
  IsLinked-splice p (q ∷ pre) post new cur a l n =
      (l.0, rw a.0 (IsLinked-splice (heap.parts q).next pre post new cur a.1 l.1 n))

pub IsLinked-behind :
    (heap : Heap) (p : Option ℕ) (pre post : List ℕ) (cur : ℕ)
    → IsLinked heap p (pre ++ cur ∷ post)
    → IsLinked heap (heap.parts cur).next post
IsLinked-behind heap p [] post cur l = l.1
IsLinked-behind heap p (q ∷ pre) post cur l = IsLinked-behind heap _ pre post cur l.1

pub elements-append :
    (heap : Heap) (xs ys : List ℕ) → elements heap (xs ++ ys) ≡ elements heap xs ++ elements heap ys
elements-append heap [] ys = refl
elements-append heap (q ∷ xs) ys =
    ap (λ t. range (heap.parts q).elts (heap.parts q).nelts ++ t) (elements-append heap xs ys)
    ∙ sym (
        append_assoc (range (heap.parts q).elts (heap.parts q).nelts) (elements heap xs)
          (elements heap ys))

pub NotIn-append_front : (a : ℕ) (xs ys : List ℕ) → NotIn a (xs ++ ys) → NotIn a xs
NotIn-append_front a [] ys out = tt
NotIn-append_front a (x ∷ xs) ys out = (out.0, NotIn-append_front a xs ys out.1)

pub NotIn-append_back : (a : ℕ) (xs ys : List ℕ) → NotIn a (xs ++ ys) → NotIn a ys
NotIn-append_back a [] ys out = out
NotIn-append_back a (x ∷ xs) ys out = NotIn-append_back a xs ys out.1

pub Distinct-middle :
    (cur : ℕ) (pre post : List ℕ) → Distinct (pre ++ cur ∷ post) → NotIn cur pre × NotIn cur post
Distinct-middle cur [] post d = (tt, d.0)
Distinct-middle cur (q ∷ pre) post d =
    let (before, behind) = Distinct-middle cur pre post d.1 in
    let out = (NotIn-append_back q pre (cur ∷ post) d.0).0 in (((λ e. out (sym e)), before), behind)

pub Distinct-back : (xs ys : List ℕ) → Distinct (xs ++ ys) → Distinct ys
Distinct-back [] ys d = d
Distinct-back (x ∷ xs) ys d = Distinct-back xs ys d.1
