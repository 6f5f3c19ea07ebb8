-- ===== src/Buffer/Threads/Held.antt =====
-- The batches that the threads around a buffer hold (llm_metrics/buffer.py).
use llm_metrics.Prelude.{
  ◌∙◌, ℕ, suc, ◌+◌, ◌≡◌, refl, ap, Bool, true, false, Option, none, some, List, [], ◌∷◌, ◌++◌,
  length, ltb, arith,
}
use llm_metrics.Prelude.Int.{pos, ◌+ℤ◌, ◌-ℤ◌, +ℤ_parts, -ℤ_parts, eq_of_parts}
use llm_metrics.Buffer.{Buffer, Host, take_batch, batch_done}
use llm_metrics.Buffer.Bounds.{IsValid}
use llm_metrics.Buffer.Drain.{take_batch-Taken, send-Sent}
use llm_metrics.Buffer.Threads.{
  Pc, holding, handed, Flusher, draining, Caller, drains, awaits, go_back, stay, settled, Drain,
  give_up, go_on, found, nothing, sends, finishes, taken,
}

-- whether a thread holds a batch, and how many events are in it
abbrev pub held : {E : Type 0} → Pc E → ℕ
held (holding batch) = 1
held (handed batch) = 1
held p = 0

abbrev pub load : {E : Type 0} → Pc E → ℕ
load (holding batch) = length batch
load (handed batch) = length batch
load p = 0

abbrev pub held_next : {E : Type 0} → Option (Pc E) → ℕ
held_next (some p) = held p
held_next none = 0

abbrev pub load_next : {E : Type 0} → Option (Pc E) → ℕ
load_next (some p) = load p
load_next none = 0

abbrev pub flusher_held : {E : Type 0} → Flusher E → ℕ
flusher_held (draining last p) = held p
flusher_held f = 0

abbrev pub flusher_load : {E : Type 0} → Flusher E → ℕ
flusher_load (draining last p) = load p
flusher_load f = 0

abbrev pub caller_held : {E : Type 0} → Caller E → ℕ
caller_held (drains p) = held p
caller_held awaits = 0

abbrev pub caller_load : {E : Type 0} → Caller E → ℕ
caller_load (drains p) = load p
caller_load awaits = 0

abbrev pub sum : {E : Type 0} → (Caller E → ℕ) → List (Caller E) → ℕ
sum f [] = 0
sum f (c ∷ cs) = f c + sum f cs

pub sum-append :
    {E : Type 0} (f : Caller E → ℕ) (xs ys : List (Caller E))
    → sum f (xs ++ ys) ≡ sum f xs + sum f ys
sum-append f [] ys = omega arith
sum-append f (x ∷ xs) ys = omega (arith, sum-append f xs ys)

pub held-go_back :
    {E : Type 0} (last : Bool) (q : Option (Pc E)) → flusher_held (go_back last q) ≡ held_next q
held-go_back last (some p) = refl
held-go_back true none = refl
held-go_back false none = refl

pub load-go_back :
    {E : Type 0} (last : Bool) (q : Option (Pc E)) → flusher_load (go_back last q) ≡ load_next q
load-go_back last (some p) = refl
load-go_back true none = refl
load-go_back false none = refl

pub stay-held : {E : Type 0} (q : Option (Pc E)) → caller_held (stay q) ≡ held_next q
stay-held (some p) = refl
stay-held none = refl

pub stay-load : {E : Type 0} (q : Option (Pc E)) → caller_load (stay q) ≡ load_next q
stay-load (some p) = refl
stay-load none = refl

pos_up : (k : ℕ) → pos (k + 0) +ℤ pos 1 ≡ pos (k + 1)
pos_up k = omega (arith, +ℤ_parts, eq_of_parts)

pos_down : (k : ℕ) → pos (k + 1) -ℤ pos 1 ≡ pos (k + 0)
pos_down k = omega (arith, -ℤ_parts, eq_of_parts)

module _ {E W : Type 0} (h : Host E W) where
  -- what one step of a drain does to the shared counters
  pub record Counted (b b' : Buffer E) (p : Pc E) (q : Option (Pc E)) : Type 0 where
    pub config : b'.config ≡ b.config
    pub flight : (k : ℕ) → b.in_flight ≡ pos (k + held p) → b'.in_flight ≡ pos (k + held_next q)
    pub load : length (taken p q) + load p ≡ load_next q + settled p

  pub Drain-Counted :
      {b b' : Buffer E} {p : Pc E} {q : Option (Pc E)}
      → IsValid b
      → Drain h b p b' q
      → Counted b b' p q
  Drain-Counted v (give_up now late) = record { config = refl; flight = λ k e. e; load = refl }
  Drain-Counted v (go_on now early) = record { config = refl; flight = λ k e. e; load = refl }
  Drain-Counted {b} v (found {e} {es} some_) =
      let t = take_batch-Taken b v in
      let size : length (take_batch b).0 ≡ suc (length es) = ap length some_ in
      let there : ltb 0 (length b.queue) ≡ true = ground (arith, t.size) in
      record {
        config = t.same.config;
        flight = λ k f. (t.in_flight ∙ rw there refl) ∙ ap (λ n. n +ℤ pos 1) f ∙ pos_up k;
        load = omega arith;
      }
  Drain-Counted {b} v (nothing none_) =
      let t = take_batch-Taken b v in
      let size : length (take_batch b).0 ≡ 0 = ap length none_ in
      let bare : ltb 0 (length b.queue) ≡ false = ground (arith, t.size, v.batch) in
      record {
        config = t.same.config;
        flight = λ k f. (t.in_flight ∙ rw bare refl) ∙ f;
        load = omega arith;
      }
  Drain-Counted {b} v (sends {batch} w) =
      let s = send-Sent h batch b w in
      record { config = s.same.config; flight = λ k e. s.in_flight ∙ e; load = omega arith }
  Drain-Counted {b} v (finishes {batch}) =
      unfold batch_done in
      record {
        config = refl;
        flight = λ k e. ap (λ n. n -ℤ pos 1) e ∙ pos_down k;
        load = omega arith;
      }
