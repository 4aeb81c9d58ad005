-- ===== src/Request.antt =====
-- The request as the handlers see it: the header lists of nginx (`ngx_list_t`, its parts and its
-- elements) in a store, the slots of the known headers, and the fields that the module writes.
-- nginx 1.23.0 or later is modelled, where a header with several values is a chain of elements
-- through `next`.
pub mod Store
pub mod Walk
pub mod Whole
use ngx_http_headers_control.Common.{
  ℕ, zero, suc, ◌+◌, Bool, true, false, Option, none, some, List, [], ◌∷◌, ◌==◌, leb, if◌then◌else◌,
}
use ngx_http_headers_control.Ngx.{Bytes, Rc}

-- `ngx_table_elt_t`. An address counts elements, so `&h[i]` is `h + i`.
pub record Elt : Type 0 where
  pub hash : ℕ
  pub key : Bytes
  pub value : Bytes
  pub lowcase_key : Bytes
  pub next : Option ℕ

-- `ngx_list_part_t`
pub record Part : Type 0 where
  pub elts : ℕ
  pub nelts : ℕ
  pub next : Option ℕ

-- `ngx_list_t`: `part` is the address of the part inside it, and `last` is `none` for NULL.
pub record HeaderList : Type 0 where
  pub part : ℕ
  pub last : Option ℕ
  pub nalloc : ℕ

pub record Heap : Type 0 where
  pub parts : ℕ → Part
  pub elt : ℕ → Elt

abbrev pub write {ℓ} : {A : Type ℓ} → (ℕ → A) → ℕ → A → ℕ → A
write memory a v b = if b == a then v else memory b

abbrev pub write_elt : Heap → ℕ → Elt → Heap
write_elt heap a h = record heap { elt = write heap.elt a h }

abbrev pub write_part : Heap → ℕ → Part → Heap
write_part heap p part = record heap { parts = write heap.parts p part }

-- The members of `ngx_http_headers_in_t` that the table of request headers reaches.
pub data InSlot : Type 0 where
  in_host in_connection in_if_modified_since in_if_unmodified_since in_if_match : InSlot
  in_if_none_match in_user_agent in_referer in_content_length in_content_type in_range : InSlot
  in_if_range in_transfer_encoding in_expect in_upgrade in_accept_encoding in_via : InSlot
  in_authorization in_keep_alive in_x_forwarded_for in_x_real_ip in_depth in_destination : InSlot
  in_overwrite in_date in_cookie : InSlot

-- Those of `ngx_http_headers_out_t`.
pub data OutSlot : Type 0 where
  out_server out_date out_content_encoding out_location out_refresh out_last_modified : OutSlot
  out_content_range out_accept_ranges out_www_authenticate out_expires out_etag : OutSlot
  out_content_length out_cache_control : OutSlot

-- Numbers that tell the slots apart, as their offsets do.
abbrev pub out_slot_index : OutSlot → ℕ
out_slot_index out_server = 0
out_slot_index out_date = 1
out_slot_index out_content_encoding = 2
out_slot_index out_location = 3
out_slot_index out_refresh = 4
out_slot_index out_last_modified = 5
out_slot_index out_content_range = 6
out_slot_index out_accept_ranges = 7
out_slot_index out_www_authenticate = 8
out_slot_index out_expires = 9
out_slot_index out_etag = 10
out_slot_index out_content_length = 11
out_slot_index out_cache_control = 12

abbrev pub in_slot_index : InSlot → ℕ
in_slot_index in_host = 0
in_slot_index in_connection = 1
in_slot_index in_if_modified_since = 2
in_slot_index in_if_unmodified_since = 3
in_slot_index in_if_match = 4
in_slot_index in_if_none_match = 5
in_slot_index in_user_agent = 6
in_slot_index in_referer = 7
in_slot_index in_content_length = 8
in_slot_index in_content_type = 9
in_slot_index in_range = 10
in_slot_index in_if_range = 11
in_slot_index in_transfer_encoding = 12
in_slot_index in_expect = 13
in_slot_index in_upgrade = 14
in_slot_index in_accept_encoding = 15
in_slot_index in_via = 16
in_slot_index in_authorization = 17
in_slot_index in_keep_alive = 18
in_slot_index in_x_forwarded_for = 19
in_slot_index in_x_real_ip = 20
in_slot_index in_depth = 21
in_slot_index in_destination = 22
in_slot_index in_overwrite = 23
in_slot_index in_date = 24
in_slot_index in_cookie = 25

-- `connection_type`
pub data ConnectionType : Type 0 where
  connection_unset connection_close connection_keep_alive : ConnectionType

-- `content_length_n` and `keep_alive_n` are `none` for -1.
pub record HeadersIn : Type 0 where
  pub headers : HeaderList
  pub slots : InSlot → Option ℕ
  pub server : Bytes
  pub content_length_n : Option ℕ
  pub keep_alive_n : Option ℕ
  pub connection_type : ConnectionType
  pub msie : Bool
  pub msie6 : Bool
  pub opera : Bool
  pub gecko : Bool
  pub chrome : Bool
  pub safari : Bool
  pub konqueror : Bool

pub record HeadersOut : Type 0 where
  pub headers : HeaderList
  pub slots : OutSlot → Option ℕ
  pub status : ℕ
  pub content_length_n : Option ℕ
  pub content_type : Bytes
  pub content_type_len : ℕ
  pub content_type_hash : ℕ
  pub content_type_lowcase : Option Bytes
  -- `charset.len`, a `size_t`, and the bytes from `charset.data` to the end of the value
  pub charset_len : ℕ
  pub charset : Bytes

-- `pool` lists the answers of the pool to the allocations to come, `none` for a refusal.
-- `parents` are the `headers_in` of the parent, of its parent, and so on up to the main request.
pub record Request : Type 0 where
  pub heap : Heap
  pub pool : List (Option ℕ)
  pub headers_in : HeadersIn
  pub headers_out : HeadersOut
  pub parents : List HeadersIn
  pub http_version : ℕ
  pub keepalive : Bool
  pub allow_ranges : Bool

-- The next answer of the pool. A pool with no answer left refuses.
abbrev pub palloc : Request → Option ℕ × Request
palloc r = elim r.pool [ [] ↦ (none, r) | answer ∷ rest ↦ (answer, record r { pool = rest }) ]

-- What the handlers call of nginx.
pub record Http : Type 0 where
  -- `ngx_list_push`: the new element, and the list and the store after it; `none` for NULL
  pub list_push : HeaderList → Heap → Option (ℕ × HeaderList × Heap)
  -- `ngx_http_complex_value`; `none` for a failure
  pub complex_value : Request → Bytes → Option Bytes
  -- `ngx_http_next_header_filter`
  pub next_header_filter : Request → Rc × Request

-- Where the loop over a header list stands: the part and the index.
pub record Cursor : Type 0 where
  pub part : ℕ
  pub index : ℕ

-- `&h[i]`
abbrev pub at_cursor : Heap → Cursor → ℕ
at_cursor heap c = (heap.parts c.part).elts + c.index

-- The positions that `for (i = 0; /* void */; i++)` visits from index `i` of a part: behind a
-- part comes index 0 of the next one, without a look at its length. `none`: the fuel ran out.
unfoldable pub walk : ℕ → Heap → (part index : ℕ) → Option (List Cursor)
walk zero heap part i = none
walk (suc fuel) heap part i = elim (leb (heap.parts part).nelts i) [
  | false ↦ elim (walk fuel heap part (suc i)) [
    | none ↦ none
    | some rest ↦ some (record { part = part; index = i } ∷ rest)
  ]
  | true ↦ elim (heap.parts part).next [
    | none ↦ some []
    | some next ↦ elim (walk fuel heap next 1) [
      | none ↦ none
      | some rest ↦ some (record { part = next; index = 0 } ∷ rest)
    ]
  ]
]
