-- ===== src/Buffer/Bounds.antt =====
-- What `add` does to the queue, and the bound on memory (llm_metrics/buffer.py).
use llm_metrics.Prelude.{
  ℕ, suc, ◌+◌, ◌-◌, ◌≤◌, ◌≡◌, refl, true, false, List, [], ◌∷◌, ◌++◌, arith, length, drop,
  length-append, length-drop, length-take, take-append-drop, ltb, if◌then◌else◌, inl, inr,
  Bool-cases, min, zero, ap, sym, ◌∙◌, append-nil, append_assoc,
}
use llm_metrics.Prelude.Int.{pos, ◌+ℤ◌}
use llm_metrics.Buffer.{Event, Buffer, deque_append, add, take_from, take_batch}

-- The constructor's checks and the bound on the queue.
pub record IsValid {E : Type 0} (b : Buffer E) : Type 0 where
  pub room : 1 ≤ b.max_size
  pub batch : 1 ≤ b.flush_at
  pub bounded : length b.queue ≤ b.max_size

-- a run of calls of `add`
abbrev pub adds : {E : Type 0} → List (Event E) → Buffer E → Buffer E
adds [] b = b
adds (e ∷ es) b = adds es (add e b)

-- the newest `n`
abbrev pub last {ℓ} : {A : Type ℓ} → ℕ → List A → List A
last n xs = drop (length xs - n) xs

module _ {E : Type 0} where
  cut-last :
      (n : ℕ) (q : List (Event E))
      → length q ≤ suc n
      → (if ltb n (length q) then drop 1 q else q) ≡ last n q
  cut-last n q h = elim (Bool-cases (ltb n (length q))) [
    | inl over ↦ let e : length q - n ≡ 1 = ground arith in rw (over, e)
    | inr fits ↦ let e : length q - n ≡ 0 = ground arith in rw (fits, e)
  ]

  deque_append-last :
      (n : ℕ) (q : List (Event E)) (e : Event E)
      → length q ≤ n
      → deque_append n q e ≡ last n (q ++ e ∷ [])
  unfolding deque_append
  deque_append-last n q e h = cut-last n (q ++ e ∷ []) (omega (arith, length-append q (e ∷ [])))

  pub length-deque_append :
      (n : ℕ) (q : List (Event E)) (e : Event E)
      → length q ≤ n
      → length (deque_append n q e) ≡ min n (length q + 1)
  length-deque_append n q e h =
      rw (deque_append-last n q e h, length-drop) (omega (arith, length-append q (e ∷ [])))

  -- While a valid buffer is open, `add` keeps exactly the newest `max_size` of the queued events
  -- and the new one, and each call makes the queue longer by one or counts one event as dropped;
  -- it is counted as queued in both cases.
  pub add_lem :
      (b : Buffer E) (e : Event E)
      → IsValid b
      → b.shutdown ≡ false
      → ((add e b).queue ≡ last b.max_size (b.queue ++ e ∷ []))
        × (length (add e b).queue + (add e b).stats.dropped ≡ length b.queue + b.stats.dropped + 1)
        × ((add e b).stats.queued ≡ b.stats.queued + 1)
  unfolding add
  add_lem b e v open_ =
      let size = length-deque_append b.max_size b.queue e v.bounded in
      (
        ground (arith, deque_append-last b.max_size b.queue e v.bounded),
        ground (arith, size),
        ground arith,
      )

  -- After a shutdown `add` changes nothing but the count of dropped events.
  add_rejects :
      (b : Buffer E) (e : Event E)
      → b.shutdown ≡ true
      → add e b ≡ record b { stats = record b.stats { dropped = b.stats.dropped + 1 } }
  unfolding add
  add_rejects b e shut = rw shut

  add-IsValid : (b : Buffer E) (e : Event E) → IsValid b → IsValid (add e b)
  unfolding add
  add-IsValid b e v = ground (arith, length-deque_append b.max_size b.queue e v.bounded)

  take_from_lem :
      (q : List (Event E)) (b : Buffer E)
      → 1 ≤ b.flush_at
      → let (batch, b') = take_from q b in
        b.queue ≡ q
        → (batch ++ b'.queue ≡ q)
          × (length batch ≡ min b.flush_at (length q))
          × (b'.in_flight ≡ (if ltb 0 (length q) then b.in_flight +ℤ pos 1 else b.in_flight))
  unfolding take_from
  take_from_lem [] b v same = (same, omega arith, refl)
  take_from_lem (e ∷ rest) b v same =
      (take-append-drop _ (e ∷ rest), rw length-take (omega arith), ground arith)

  -- A batch of a valid buffer is the oldest events, as many as there are up to `flush_at`; if the
  -- queue is not empty, it counts as in flight from the moment that it leaves the queue.
  pub take_batch_lem :
      (b : Buffer E)
      → IsValid b
      → let (batch, b') = take_batch b in
        (batch ++ b'.queue ≡ b.queue)
        × (length batch ≡ min b.flush_at (length b.queue))
        × (b'.in_flight ≡ (if ltb 0 (length b.queue) then b.in_flight +ℤ pos 1 else b.in_flight))
  unfolding take_batch
  take_batch_lem b v = take_from_lem b.queue b v.batch refl

  -- A valid buffer stays valid through any run of calls of `add`: the queue never grows beyond
  -- `max_size`.
  adds-IsValid : (es : List (Event E)) (b : Buffer E) → IsValid b → IsValid (adds es b)
  adds-IsValid [] b v = v
  adds-IsValid (e ∷ es) b v = adds-IsValid es (add e b) (add-IsValid b e v)

  add_config : (b : Buffer E) (e : Event E) → (add e b).config ≡ b.config
  unfolding add
  add_config b e = ground arith

  add_shutdown : (b : Buffer E) (e : Event E) → (add e b).shutdown ≡ b.shutdown
  unfolding add
  add_shutdown b e = ground arith

module _ {ℓ} {A : Type ℓ} where
  drop-append : (k : ℕ) (xs ys : List A) → k ≤ length xs → drop k (xs ++ ys) ≡ drop k xs ++ ys
  drop-append zero xs ys h = refl
  drop-append (suc k) [] ys h = absurd (omega arith)
  drop-append (suc k) (x ∷ xs) ys h = drop-append k xs ys (omega arith)

  drop-drop : (j k : ℕ) (xs : List A) → drop j (drop k xs) ≡ drop (k + j) xs
  drop-drop j zero xs = let e : zero + j ≡ j = omega arith in rw e
  drop-drop zero (suc k) [] = let e : suc k + zero ≡ suc k = omega arith in rw e
  drop-drop (suc j) (suc k) [] = let e : suc k + suc j ≡ suc (k + suc j) = omega arith in rw e
  drop-drop j (suc k) (x ∷ xs) =
      let e : suc k + j ≡ suc (k + j) = omega arith in rw e (drop-drop j k xs)

  last-last-append : (n : ℕ) (xs ys : List A) → last n (last n xs ++ ys) ≡ last n (xs ++ ys)
  last-last-append n xs ys =
      let k = length xs - n in
      let e : k + (length (drop k xs ++ ys) - n) ≡ length (xs ++ ys) - n =
        omega (arith, length-append (drop k xs) ys, length-append xs ys, length-drop k xs) in
      ap (drop (length (drop k xs ++ ys) - n)) (sym (drop-append k xs ys (omega arith)))
      ∙ drop-drop _ k (xs ++ ys)
      ∙ ap (λ j. drop j (xs ++ ys)) e

module _ {E : Type 0} where
  -- A burst of calls into a valid, open buffer leaves exactly the newest `max_size` events, in
  -- order.
  pub adds-last :
      (es : List (Event E)) (b : Buffer E)
      → IsValid b
      → b.shutdown ≡ false
      → (adds es b).queue ≡ last b.max_size (b.queue ++ es)
  adds-last [] b v open_ =
      let e : length (b.queue ++ []) - b.max_size ≡ 0 =
        omega (arith, v.bounded, length-append b.queue []) in
      rw e (sym (append-nil b.queue))
  adds-last (e ∷ es) b v open_ =
      adds-last es (add e b) (add-IsValid b e v) (add_shutdown b e ∙ open_)
      ∙ rw (add_config b e, (add_lem b e v open_).0)
          (last-last-append b.max_size (b.queue ++ e ∷ []) es
            ∙ ap (last b.max_size) (append_assoc b.queue (e ∷ []) es))
