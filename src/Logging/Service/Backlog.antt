-- ===== src/Logging/Service/Backlog.antt =====
-- The backlog that waits while no consumer is served.
use workpane.Prelude.{
  ℕ, zero, suc, ◌-◌, ◌≤◌, ◌<◌, ◌≡◌, ◌≢◌, inl, inr, false, List, [], ◌∷◌, ◌++◌, arith, refl, length,
  length-append, drop, map, append_assoc, append-nil, ap, ◌∙◌, sym, Bool-cases, ltb, ltb→lt,
  length-drop,
}
use workpane.Logging.Service.{
  LogService, writes, step, run, write, pending_capacity, initial, pop_front,
}

module _ {E : Type 0} where
  -- The oldest of a list is dropped, or the list has room.
  pop_front-drop : (n : ℕ) (ws : List E) → n < length ws → pop_front (drop n ws) ≡ drop (suc n) ws
  pop_front-drop n [] h = elim h [ ]
  pop_front-drop zero (w ∷ ws) h = refl
  pop_front-drop (suc n) (w ∷ ws) h = pop_front-drop n ws (omega arith)

  drop-append_le : (n : ℕ) (ws vs : List E) → n ≤ length ws → drop n (ws ++ vs) ≡ drop n ws ++ vs
  drop-append_le zero ws vs h = refl
  drop-append_le (suc n) [] vs h = elim h [ ]
  drop-append_le (suc n) (w ∷ ws) vs h = drop-append_le n ws vs (omega arith)

  drop-eq : (m n : ℕ) (ws : List E) → m ≡ n → drop m ws ≡ drop n ws
  drop-eq m n ws h = ap (λ (k : ℕ). drop k ws) h

  -- The newest of what was written so far.
  abbrev newest : List E → List E
  newest ws = drop (length ws - pending_capacity) ws

  write-room :
      (s : LogService E) (entry : E)
      → s.delivering ≡ false
      → length s.pending ≢ pending_capacity
      → ((write entry s).pending ≡ s.pending ++ entry ∷ []) × ((write entry s).delivering ≡ false)
  unfolding write
  write-room s entry d n = ground arith

  write-full :
      (s : LogService E) (entry : E)
      → s.delivering ≡ false
      → length s.pending ≡ pending_capacity
      → ((write entry s).pending ≡ pop_front s.pending ++ entry ∷ [])
        × ((write entry s).delivering ≡ false)
  unfolding write
  write-full s entry d n = ground arith

  newest-room : (ws : List E) → length ws < pending_capacity → newest ws ≡ ws
  newest-room ws h = drop-eq (length ws - pending_capacity) 0 ws (omega arith)

  newest-full :
      (ws : List E) (entry : E)
      → pending_capacity ≤ length ws
      → pop_front (newest ws) ++ entry ∷ [] ≡ newest (ws ++ entry ∷ [])
  newest-full ws entry h =
      let n = length ws - pending_capacity in
      ap (λ (l : List E). l ++ entry ∷ []) (pop_front-drop n ws (omega arith))
      ∙ sym (drop-append_le (suc n) ws (entry ∷ []) (omega arith))
      ∙ drop-eq (suc n) _ (ws ++ entry ∷ []) (omega (arith, length-append {0} ws (entry ∷ [])))

  newest-snoc_room :
      (ws : List E) (entry : E)
      → length ws < pending_capacity
      → ws ++ entry ∷ [] ≡ newest (ws ++ entry ∷ [])
  newest-snoc_room ws entry h =
      drop-eq 0 _ (ws ++ entry ∷ []) (omega (arith, length-append {0} ws (entry ∷ [])))

  write-newest :
      (s : LogService E) (ws : List E) (entry : E)
      → s.delivering ≡ false
      → s.pending ≡ newest ws
      → ((write entry s).pending ≡ newest (ws ++ entry ∷ [])) × ((write entry s).delivering ≡ false)
  write-newest s ws entry d p =
      let l = length-drop (length ws - pending_capacity) ws in
      elim (Bool-cases (ltb (length ws) pending_capacity)) [
        | inl room ↦
            let h = ltb→lt (length ws) pending_capacity room in
            let e = p ∙ newest-room ws h in
            let (q, k) = write-room s entry d (omega (arith, ap length e)) in
            (q ∙ ap (λ (m : List E). m ++ entry ∷ []) e ∙ newest-snoc_room ws entry h, k)
        | inr more ↦
            let h : pending_capacity ≤ length ws = ground arith in
            let (q, k) = write-full s entry d (omega (arith, ap length p)) in
            (q ∙ ap (λ (m : List E). pop_front m ++ entry ∷ []) p ∙ newest-full ws entry h, k)
      ]

  run-newest :
      (s : LogService E) (ws entries : List E)
      → s.delivering ≡ false
      → s.pending ≡ newest ws
      → (run s (map writes entries)).pending ≡ newest (ws ++ entries)
  unfolding run step
  run-newest s ws [] d p = p ∙ ap newest (sym (append-nil ws))
  run-newest s ws (entry ∷ entries) d p =
      let (q, k) = write-newest s ws entry d p in
      run-newest (write entry s) (ws ++ entry ∷ []) entries k q
      ∙ ap newest (append_assoc ws (entry ∷ []) entries)

  -- Before a consumer exists exactly the newest 2000 of the written entries wait, in their order.
  pub run-initial-newest :
      (entries : List E)
      → (run initial (map writes entries)).pending
        ≡ drop (length entries - pending_capacity) entries
  run-initial-newest entries = run-newest initial [] entries refl refl

  -- A backlog that is already above the capacity when nobody is served, as a consumer that stops
  -- taking and then clears its delivery leaves it, is never trimmed: every further entry is added to
  -- it, so it grows without a bound.
  pub run-overflow :
      (s : LogService E) (entries : List E)
      → s.delivering ≡ false
      → pending_capacity < length s.pending
      → (run s (map writes entries)).pending ≡ s.pending ++ entries
  unfolding run step
  run-overflow s [] d h = sym (append-nil s.pending)
  run-overflow s (entry ∷ entries) d h =
      let (q, k) = write-room s entry d (omega arith) in
      run-overflow (write entry s) entries k
        (omega (arith, ap length q, length-append {0} s.pending (entry ∷ [])))
      ∙ ap (λ (l : List E). l ++ entries) q
      ∙ append_assoc s.pending (entry ∷ []) entries
