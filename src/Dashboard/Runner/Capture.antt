-- ===== src/Dashboard/Runner/Capture.antt =====
-- internal/dashboard/runner.go, `capBuf`: it keeps the first bytes of what is written.
use curio_core.Dashboard.Runner.{write_all, write, CapBuf}
use curio_core.Base.{
  length-append, take-append, ◌∙◌, length-take, ◌&&◌, ltb, ◌-◌, leb, Bool-cases, take_all, ◌⊎◌,
  append_assoc, ◌≤◌, length, append-nil, ◌++◌, take, ◌<◌, ◌∷◌, Bytes, List, ℕ, arith, ap, sym, inr,
  inl, false, true, refl, [], ◌≡◌,
}

abbrev pub concat : List Bytes → Bytes
concat [] = []
concat (p ∷ ps) = p ++ concat ps

-- what the buffer holds when `seen` was written
abbrev IsCapped : CapBuf → ℕ → Bytes → Type 0
IsCapped c limit seen =
    (c.limit ≡ limit)
    × (c.buf ≡ take limit seen)
    × (((c.truncated ≡ false) × (length seen ≤ limit))
        ⊎ ((c.truncated ≡ true) × (limit ≤ length seen)))

write-IsCapped :
    (p : Bytes) (c : CapBuf) (limit : ℕ) (seen : Bytes)
    → 0 < limit
    → IsCapped c limit seen
    → IsCapped (write p c) limit (seen ++ p)
unfolding write
write-IsCapped p c limit seen pos_limit (same, kept, marked) =
    let size : length c.buf ≡ length (take limit seen) = ap length kept in
    elim (Bool-cases (leb limit (length seen))) [
      | inl full ↦
          let none_left : limit - length seen ≡ 0 = ground (arith, full) in
          let full_buf : (ltb 0 c.limit && leb c.limit (length c.buf)) ≡ true =
            ground (arith, full, size, same, length-take limit seen) in
          rw full_buf (
            same,
            kept ∙ sym (take-append limit seen p ∙ rw none_left (append-nil (take limit seen))),
            inr (refl, ground (arith, full, length-append seen p)),
          )
      | inr room ↦
          let whole : c.buf ≡ seen = kept ∙ take_all limit seen (ground (arith, room)) in
          let size_seen : length c.buf ≡ length seen = ap length whole in
          let unmarked : c.truncated ≡ false = ground (arith, room) in
          let not_full : (ltb 0 c.limit && leb c.limit (length c.buf)) ≡ false =
            ground (arith, room, size_seen, same) in
          let parts =
            take-append limit seen p
            ∙ ap (λ xs. xs ++ take (limit - length seen) p) (sym kept ∙ whole) in
          elim (Bool-cases (ltb 0 c.limit && ltb (c.limit - length c.buf) (length p))) [
            | inl over ↦
                let left : c.limit - length c.buf ≡ limit - length seen = omega arith in
                rw (not_full, over)
                  (
                    same,
                    ap (λ n. c.buf ++ take n p) left
                        ∙ ap (λ xs. xs ++ take (limit - length seen) p) whole
                        ∙ sym parts,
                    inr (refl, ground (arith, over, room, length-append seen p)),
                  )
            | inr fits ↦
                let small : length p ≤ limit - length seen = ground (arith, fits) in
                rw (not_full, fits)
                  (
                    same,
                    ap (λ xs. xs ++ p) whole
                        ∙ ap (λ ys. seen ++ ys) (sym (take_all (limit - length seen) p small))
                        ∙ sym parts,
                    inl (unmarked, ground (arith, small, room, length-append seen p)),
                  )
          ]
    ]

write_all-IsCapped :
    (ps : List Bytes) (c : CapBuf) (limit : ℕ) (seen : Bytes)
    → 0 < limit
    → IsCapped c limit seen
    → IsCapped (write_all ps c) limit (seen ++ concat ps)
unfolding write_all
write_all-IsCapped [] c limit seen pos_limit h = rw (append-nil seen) h
write_all-IsCapped (p ∷ ps) c limit seen pos_limit h = rw (← append_assoc seen p (concat ps)) (
    write_all-IsCapped ps (write p c) limit (seen ++ p) pos_limit
      (write-IsCapped p c limit seen pos_limit h))

-- However a command cuts its output into writes, the buffer ends with the first `limit` bytes of the
-- whole; it is not marked as truncated only if that is everything, and marked only if the output
-- reached the limit.
pub write_all-take :
    (limit : ℕ) (ps : List Bytes)
    → 0 < limit
    → ((write_all ps (record { buf = []; limit = limit; truncated = false })).buf
        ≡ take limit (concat ps))
      × ((((write_all ps (record { buf = []; limit = limit; truncated = false })).truncated ≡ false)
            × (length (concat ps) ≤ limit))
          ⊎ (((write_all ps (record { buf = []; limit = limit; truncated = false })).truncated
                ≡ true)
              × (limit ≤ length (concat ps))))
write_all-take limit ps pos_limit =
    let kept =
      write_all-IsCapped ps (record { buf = []; limit = limit; truncated = false }) limit []
        pos_limit (refl, sym (take_all limit [] (omega arith)), inl (refl, omega arith)) in
    (kept.1, kept.2)
