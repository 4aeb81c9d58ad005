-- ===== src/Phase/Postpone.antt =====
-- The move of `ngx_http_headers_control_handler` to the end of its phase.
use ngx_http_headers_control.Common.{
  suc, ◌+◌, ◌-◌, ◌<◌, ◌≡◌, refl, sym, ap, ◌∙◌, true, false, some, List, [], ◌∷◌, ◌++◌, arith, ltb,
  length, set, drop, get_elem?, take-append_length, drop-append_length, set-append_length,
  get_elem?-append_length,
}
use ngx_http_headers_control.Rule.{MainConf}
use ngx_http_headers_control.Phase.{PhaseHandler, Engine, decrement, memmove, rotate, postpone}

module _ {A : Type 0} where
  -- What is left behind a block that slides up by one place.
  drop-slide :
      (h : A) (mid post : List A) → (x : A) × (drop (length mid) (h ∷ (mid ++ post)) ≡ x ∷ post)
  drop-slide h [] post = (h, refl)
  drop-slide h (m ∷ mid) post = drop-slide m mid post

  set-middle :
      (mid post : List A) (x h : A) → set (mid ++ x ∷ post) (length mid) h ≡ mid ++ h ∷ post
  set-middle [] post x h = refl
  set-middle (m ∷ mid) post x h = ap (◌∷◌ m) (set-middle mid post x h)

  memmove-set :
      (pre mid post : List A) (h : A)
      → set
          (memmove (pre ++ h ∷ (mid ++ post)) (length pre) (length pre + 1) (length mid))
          (length pre + length mid)
          h
        ≡ pre ++ (mid ++ h ∷ post)
  memmove-set pre mid post h =
      let (x, left) = drop-slide h mid post in
      rw
        (
          take-append_length pre (h ∷ (mid ++ post)),
          drop-append_length pre (h ∷ (mid ++ post)) 1,
          take-append_length mid post,
          drop-append_length pre (h ∷ (mid ++ post)) (length mid),
          left,
          set-append_length pre (mid ++ x ∷ post) (length mid) h,
        )
        (ap (λ t. pre ++ t) (set-middle mid post x h))

-- The first request moves the running handler to the last place of its phase, where at least one
-- handler stands behind it: those close up, all others stay, and the engine runs the same index
-- again; a later request moves nothing, whatever the engine holds.
pub postpone-rotates :
    (pre mid post : List PhaseHandler) (h : PhaseHandler) (hmcf : MainConf)
    → hmcf.postponed_to_phase_end ≡ false
    → h.next ≡ suc (length pre + length mid)
    → 0 < length mid
    → let moved = record hmcf { postponed_to_phase_end = true } in
      (postpone hmcf
          (record { handlers = pre ++ h ∷ (mid ++ post); phase_handler = some (length pre) })
        ≡ some (
          true,
          moved,
          record { handlers = pre ++ (mid ++ h ∷ post); phase_handler = decrement (length pre) },
        ))
      × ((engine : Engine) → postpone moved engine ≡ some (false, moved, engine))
unfolding postpone rotate
postpone-rotates pre mid post h hmcf first next more =
    let here : length pre + 0 ≡ length pre = omega arith in
    let current : get_elem? (pre ++ h ∷ (mid ++ post)) (length pre) ≡ some h =
      ap (get_elem? (pre ++ h ∷ (mid ++ post))) (sym here)
      ∙ get_elem?-append_length pre (h ∷ (mid ++ post)) 0 in
    let last : suc (length pre + length mid) - 1 ≡ length pre + length mid = omega arith in
    let count : length pre + length mid - length pre ≡ length mid = omega arith in
    let before : ltb (length pre) (length pre + length mid) ≡ true = ground arith in
    (
      rw (first, current, next, last, before, count)
          (ap
            (λ hs. some (
              true,
              record hmcf { postponed_to_phase_end = true },
              record { handlers = hs; phase_handler = decrement (length pre) },
            ))
            (memmove-set pre mid post (record h { next = suc (length pre + length mid) }))),
      λ engine. refl,
    )
