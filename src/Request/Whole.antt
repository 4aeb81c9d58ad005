-- ===== src/Request/Whole.antt =====
-- Header lists as a whole: their parts, their elements, and what `ngx_list_push` promises of them.
use ngx_http_headers_control.Common.{NotIn, ℕ, ◌≡◌, ◌≢◌, some, List, [], ◌∷◌, ◌++◌}
use ngx_http_headers_control.Request.{Heap, HeaderList}
use ngx_http_headers_control.Request.Walk.{AllFilled}
use ngx_http_headers_control.Remove.Parts.{IsLinked, elements, AgreeOn, IsLinked-agree}
use ngx_http_headers_control.Remove.Before.{end_of}

-- A whole header list: its parts are its own one and those at `qs`, linked in this order, the
-- last one is in `last`, and those behind the first hold elements.
pub record IsList (heap : Heap) (l : HeaderList) (qs : List ℕ) : Type 0 where
  pub linked : IsLinked heap (some l.part) (l.part ∷ qs)
  pub ends : l.last ≡ some (end_of l.part qs)
  pub filled : AllFilled heap qs

-- The addresses of its elements.
abbrev pub listed : Heap → HeaderList → List ℕ → List ℕ
listed heap l qs = elements heap (l.part ∷ qs)

-- What `ngx_list_push` promises of the element that it gives: a new one, behind the others of the
-- list, which stay as they are.
pub record IsPush (heap : Heap) (l : HeaderList) (qs : List ℕ) (a : ℕ) (heap' : Heap)
    (l' : HeaderList) (qs' : List ℕ) : Type 0 where
  pub list : IsList heap' l' qs'
  pub behind : listed heap' l' qs' ≡ listed heap l qs ++ a ∷ []
  pub fresh : NotIn a (listed heap l qs)
  pub aside : (b : ℕ) → b ≢ a → heap'.elt b ≡ heap.elt b

module _ (heap heap' : Heap) (same : (q : ℕ) → heap'.parts q ≡ heap.parts q) where
  pub AgreeOn-all : (qs : List ℕ) → AgreeOn heap heap' qs
  AgreeOn-all [] = tt
  AgreeOn-all (q ∷ qs) = (same q, AgreeOn-all qs)

  AllFilled-same : (qs : List ℕ) → AllFilled heap qs → AllFilled heap' qs
  AllFilled-same [] f = tt
  AllFilled-same (q ∷ qs) f = (rw (same q) f.0, AllFilled-same qs f.1)

  pub IsList-same : (l : HeaderList) (qs : List ℕ) → IsList heap l qs → IsList heap' l qs
  IsList-same l qs is = record {
    linked =
        IsLinked-agree heap heap' (some l.part) (l.part ∷ qs) (AgreeOn-all (l.part ∷ qs)) is.linked;
    ends = is.ends;
    filled = AllFilled-same qs is.filled;
  }
