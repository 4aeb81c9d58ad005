-- ===== src/Remove.antt =====
-- `ngx_http_headers_control_rm_header_helper` of ngx_http_headers_control_util.c: the removal of one
-- element from a header list, by moving the ends of its part or by splitting or unlinking the part.
-- Elements never move. A result `none` is a loop that ran out of fuel or an assertion that failed.
pub mod Parts
mod Split
pub mod Inner
pub mod Before
pub mod Emptied
pub mod Own
use ngx_http_headers_control.Common.{
  ℕ, zero, suc, ◌+◌, ◌-◌, ◌^◌, Bool, true, false, Option, none, some, List, [], ◌∷◌, ◌==◌, leb,
  if◌then◌else◌,
}
use ngx_http_headers_control.Ngx.{Rc, rc_ok, rc_error}
use ngx_http_headers_control.Request.{HeaderList, Heap, write_part}

-- `n--` on an `ngx_uint_t`.
abbrev pub dec_size : ℕ → ℕ
dec_size zero = 2 ^ 64 - 1
dec_size (suc n) = n

-- `a - b` on an `ngx_uint_t`.
abbrev pub sub_size : ℕ → ℕ → ℕ
sub_size a b = if leb b a then a - b else a + 2 ^ 64 - b

-- Pointers to parts are equal.
abbrev pub same_ptr : Option ℕ → Option ℕ → Bool
same_ptr none none = true
same_ptr (some a) (some b) = a == b
same_ptr _ _ = false

-- `while (part->next != cur) { if (part->next == NULL) return NGX_ERROR; part = part->next; }`
-- `some none` is the NGX_ERROR.
unfoldable pub part_before : ℕ → Heap → (part cur : ℕ) → Option (Option ℕ)
part_before zero heap part cur = none
part_before (suc fuel) heap part cur = elim (heap.parts part).next [
  | none ↦ some none
  | some next ↦ elim (next == cur) [
    | true ↦ some (some part)
    | false ↦ part_before fuel heap next cur
  ]
]

-- The return code, the list, the store and the pool.
pub record Removed : Type 0 where
  pub rc : Rc
  pub list : HeaderList
  pub heap : Heap
  pub pool : List (Option ℕ)

-- Behind `l->last`, an empty part leaves the list, but for the part inside it.
remove_last : ℕ → HeaderList → Heap → List (Option ℕ) → (cur : ℕ) → Option Removed
remove_last fuel l heap pool cur =
    if (heap.parts cur).nelts == 0
    then if l.part == cur
      then some (record {
        rc = rc_ok;
        list = l;
        heap = write_part heap cur (record (heap.parts cur) { elts = (heap.parts cur).elts - 1 });
        pool = pool;
      })
      else elim (part_before fuel heap l.part cur) [
        | none ↦ none
        | some none ↦ some (record { rc = rc_error; list = l; heap = heap; pool = pool })
        | some (some part) ↦ some (record {
          rc = rc_ok;
          list = record l { last = some part; nalloc = (heap.parts part).nelts };
          heap = write_part heap part (record (heap.parts part) { next = none });
          pool = pool;
        })
      ]
    else some (record {
      rc = rc_ok;
      list = record l { nalloc = dec_size l.nalloc };
      heap = heap;
      pool = pool;
    })

-- An empty part that is not the last one: the next part moves into the list's own, or the part is
-- unlinked. `none` is the failed assertion `cur->next != NULL`.
remove_empty : ℕ → HeaderList → Heap → List (Option ℕ) → (cur : ℕ) → Option Removed
remove_empty fuel l heap pool cur =
    if l.part == cur
    then elim (heap.parts cur).next [
      | none ↦ none
      | some next ↦
          let moved = write_part heap cur (heap.parts next) in
          some (record {
            rc = rc_ok;
            list =
                if same_ptr l.last (some next)
                then record l { last = some cur; nalloc = (heap.parts next).nelts }
                else l;
            heap = moved;
            pool = pool;
          })
    ]
    else elim (part_before fuel heap l.part cur) [
      | none ↦ none
      | some none ↦ some (record { rc = rc_error; list = l; heap = heap; pool = pool })
      | some (some part) ↦ some (record {
        rc = rc_ok;
        list = l;
        heap = write_part heap part (record (heap.parts part) { next = (heap.parts cur).next });
        pool = pool;
      })
    ]

-- `if (i == 0)`
remove_first : ℕ → HeaderList → Heap → List (Option ℕ) → (cur : ℕ) → Option Removed
unfolding remove_last remove_empty
remove_first fuel l heap pool cur =
    let part = heap.parts cur in
    let heap' =
      write_part heap cur (record part { elts = part.elts + 1; nelts = dec_size part.nelts }) in
    if same_ptr (some cur) l.last
    then remove_last fuel l heap' pool cur
    else if dec_size part.nelts == 0
    then remove_empty fuel l heap' pool cur
    else some (record { rc = rc_ok; list = l; heap = heap'; pool = pool })

-- An element inside the part: the elements behind it become a part of their own.
pub split : HeaderList → Heap → List (Option ℕ) → (cur i : ℕ) → Removed
split l heap [] cur i = record { rc = rc_error; list = l; heap = heap; pool = [] }
split l heap (none ∷ pool) cur i = record { rc = rc_error; list = l; heap = heap; pool = pool }
split l heap (some new ∷ pool) cur i =
    let part = heap.parts cur in
    record {
      rc = rc_ok;
      list =
          if same_ptr (some cur) l.last
          then record l { last = some new; nalloc = sub_size part.nelts (i + 1) }
          else l;
      heap =
          write_part
            (write_part heap new (record {
              elts = part.elts + (i + 1);
              nelts = sub_size part.nelts (i + 1);
              next = part.next;
            }))
            cur (record part { nelts = i; next = some new });
      pool = pool;
    }

unfoldable pub rm_header_helper :
    ℕ → HeaderList → Heap → List (Option ℕ) → (cur i : ℕ) → Option Removed
unfolding remove_first split
rm_header_helper fuel l heap pool cur i =
    let part = heap.parts cur in
    if i == 0
    then remove_first fuel l heap pool cur
    else if i == dec_size part.nelts
    then some (record {
      rc = rc_ok;
      list = if same_ptr (some cur) l.last then record l { nalloc = dec_size part.nelts } else l;
      heap = write_part heap cur (record part { nelts = dec_size part.nelts });
      pool = pool;
    })
    else some (split l heap pool cur i)
