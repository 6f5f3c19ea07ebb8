-- ===== src/LangChain/Bounds.antt =====
-- The cap on the open runs of llm_metrics/integrations/langchain.py, and the end of a run.
use llm_metrics.Prelude.{
  ℕ, suc, ◌+◌, ◌-◌, ◌≤◌, ◌≡◌, refl, Option, none, some, List, [], ◌∷◌, length, drop, ltb, ◌==◌,
  if◌then◌else◌, arith, Bool-cases, inl, inr, subst, ==_iff, ap, map, ◌++◌, ◌∙◌,
}
use llm_metrics.Value.{Value, Fields, Objects}
use llm_metrics.Sdk.{Platform, Sdk}
use llm_metrics.Decorator.{Outcome, Span}
use llm_metrics.LangChain.{
  Run, Tracer, set_run, evict, put_run, find_run, remove_run, put_child, put_root, open_under,
  open_run, close_with, close_run, String,
}

-- no run id twice, and no more runs than the cap allows
unfoldable pub DistinctIds : List (ℕ × Run) → Type 0
DistinctIds [] = Unit
DistinctIds ((k, r) ∷ rs) = (find_run k rs ≡ none) × DistinctIds rs

pub record Capped (t : Tracer) : Type 0 where
  pub cap : 1 ≤ t.max_runs
  pub few : length t.runs ≤ t.max_runs
  pub ids : DistinctIds t.runs

-- 1 if the id is new
abbrev pub fresh : Option Run → ℕ
fresh none = 1
fresh (some r) = 0

pub length-set_run :
    (k : ℕ) (r : Run) (rs : List (ℕ × Run))
    → length (set_run k r rs) ≡ length rs + fresh (find_run k rs)
unfolding set_run find_run
length-set_run k r [] = omega arith
length-set_run k r ((j, q) ∷ rs) = ground (arith, length-set_run k r rs)

evict-drop : (cap : ℕ) (rs : List (ℕ × Run)) → (evict cap rs).0 ≡ drop (length rs - cap) rs
unfolding evict
evict-drop cap [] = ground arith
evict-drop cap (r ∷ rs) = elim (Bool-cases (ltb cap (length (r ∷ rs)))) [
  | inl over ↦
      let more : length (r ∷ rs) - cap ≡ suc (length rs - cap) = ground arith in
      rw (over, more) (evict-drop cap rs)
  | inr fits ↦ let none_over : length (r ∷ rs) - cap ≡ 0 = ground arith in rw (fits, none_over) refl
]

length-evict :
    (cap : ℕ) (rs : List (ℕ × Run))
    → (length (evict cap rs).0 ≤ cap) × (length (evict cap rs).0 + (evict cap rs).1 ≡ length rs)
unfolding evict
length-evict cap [] = omega arith
length-evict cap (r ∷ rs) = ground (arith, length-evict cap rs)

find-set_run :
    (j k : ℕ) (r : Run) (rs : List (ℕ × Run))
    → find_run j (set_run k r rs) ≡ (if k == j then some r else find_run j rs)
unfolding find_run set_run
find-set_run j k r [] = refl
find-set_run j k r ((i, q) ∷ rs) = ground (arith, find-set_run j k r rs)

pub set_run-DistinctIds :
    (k : ℕ) (r : Run) (rs : List (ℕ × Run)) → DistinctIds rs → DistinctIds (set_run k r rs)
unfolding DistinctIds set_run find_run
set_run-DistinctIds k r [] d = (refl, tt)
set_run-DistinctIds k r ((i, q) ∷ rs) d = elim (Bool-cases (i == k)) [
  | inl same ↦ rw same d
  | inr other ↦
      rw other (ground (arith, find-set_run i k r rs, d.0), set_run-DistinctIds k r rs d.1)
]

evict-DistinctIds : (cap : ℕ) (rs : List (ℕ × Run)) → DistinctIds rs → DistinctIds (evict cap rs).0
unfolding DistinctIds evict
evict-DistinctIds cap [] d = tt
evict-DistinctIds cap (r ∷ rs) d = elim (Bool-cases (ltb cap (length (r ∷ rs)))) [
  | inl over ↦ rw over (evict-DistinctIds cap rs d.1)
  | inr fits ↦ rw fits d
]

-- A run that is put into the map: the map stays within its cap and without double ids, and each
-- call makes it longer by one, replaces a run of the same id, or drops runs and counts them.
put_run-Capped : (k : ℕ) (r : Run) (t : Tracer) → Capped t → Capped (put_run k r t)
unfolding put_run
put_run-Capped k r t c = record {
  cap = c.cap;
  few = (length-evict t.max_runs (set_run k r t.runs)).0;
  ids = evict-DistinctIds t.max_runs _ (set_run-DistinctIds k r t.runs c.ids);
}

remove_run-shorter : (k : ℕ) (rs : List (ℕ × Run)) → length (remove_run k rs) ≤ length rs
unfolding remove_run
remove_run-shorter k [] = omega arith
remove_run-shorter k ((j, r) ∷ rs) = ground (arith, remove_run-shorter k rs)

find-remove_run :
    (j k : ℕ) (rs : List (ℕ × Run)) → find_run j rs ≡ none → find_run j (remove_run k rs) ≡ none
unfolding find_run remove_run
find-remove_run j k [] e = refl
find-remove_run j k ((i, r) ∷ rs) e = ground (arith, find-remove_run j k rs)

remove_run-DistinctIds :
    (k : ℕ) (rs : List (ℕ × Run)) → DistinctIds rs → DistinctIds (remove_run k rs)
unfolding DistinctIds remove_run
remove_run-DistinctIds k [] d = tt
remove_run-DistinctIds k ((i, r) ∷ rs) d = elim (Bool-cases (i == k)) [
  | inl same ↦ rw same d.1
  | inr other ↦ rw other (find-remove_run i k rs d.0, remove_run-DistinctIds k rs d.1)
]

find_removed : (k : ℕ) (rs : List (ℕ × Run)) → DistinctIds rs → find_run k (remove_run k rs) ≡ none
unfolding DistinctIds remove_run find_run
find_removed k [] d = refl
find_removed k ((i, r) ∷ rs) d = elim (Bool-cases (i == k)) [
  | inl same ↦ rw same (subst (λ (j : ℕ). find_run j rs ≡ none) ((==_iff i k).0 same) d.0)
  | inr other ↦ rw other (ground (arith, find_removed k rs d.1))
]

set_run-new :
    (k : ℕ) (r : Run) (rs : List (ℕ × Run))
    → find_run k rs ≡ none
    → set_run k r rs ≡ rs ++ (k, r) ∷ []
unfolding set_run find_run
set_run-new k r [] new = refl
set_run-new k r ((j, q) ∷ rs) new = elim (Bool-cases (j == k)) [
  | inl same ↦ cc (rw same at new)
  | inr other ↦ rw other (ap (λ l. (j, q) ∷ l) (set_run-new k r rs (rw other at new)))
]

-- `r` in the place of the run with the id `k`
abbrev pub replaced : ℕ → Run → ℕ × Run → ℕ × Run
replaced k r (j, q) = if j == k then (j, r) else (j, q)

map-replaced_absent :
    (k : ℕ) (r : Run) (rs : List (ℕ × Run)) → find_run k rs ≡ none → map (replaced k r) rs ≡ rs
unfolding find_run
map-replaced_absent k r [] new = refl
map-replaced_absent k r ((j, q) ∷ rs) new = elim (Bool-cases (j == k)) [
  | inl same ↦ cc (rw same at new)
  | inr other ↦ rw other (ap (λ l. (j, q) ∷ l) (map-replaced_absent k r rs (rw other at new)))
]

set_run-known :
    (k : ℕ) (r q : Run) (rs : List (ℕ × Run))
    → DistinctIds rs
    → find_run k rs ≡ some q
    → set_run k r rs ≡ map (replaced k r) rs
unfolding set_run find_run DistinctIds
set_run-known k r q [] d known = cc
set_run-known k r q ((j, q') ∷ rs) d known = elim (Bool-cases (j == k)) [
  | inl same ↦
      let absent : find_run k rs ≡ none =
        subst (λ (i : ℕ). find_run i rs ≡ none) ((==_iff j k).0 same) d.0 in
      rw (same, map-replaced_absent k r rs absent)
  | inr other ↦ rw other (ap (λ l. (j, q') ∷ l) (set_run-known k r q rs d.1 (rw other at known)))
]

-- the runs that a map without a cap holds after `r` is put under `k`: a run with a new id is the
-- newest one, and a run with a known id takes the place of the old one
abbrev pub with_run : ℕ → Run → Option Run → List (ℕ × Run) → List (ℕ × Run)
with_run k r none rs = rs ++ (k, r) ∷ []
with_run k r (some old) rs = map (replaced k r) rs

set_run-with_run :
    (k : ℕ) (r : Run) (known : Option Run) (rs : List (ℕ × Run))
    → DistinctIds rs
    → find_run k rs ≡ known
    → set_run k r rs ≡ with_run k r known rs
set_run-with_run k r none rs d is = set_run-new k r rs is
set_run-with_run k r (some q) rs d is = set_run-known k r q rs d is

-- A new run goes last and the oldest go first. For a map without an id twice: a run with a new id
-- is put behind all others, and one with a known id in the place of the old one; of the runs then
-- in the map, exactly the last `max_runs` are kept, in order, and the others are counted as
-- dropped.
pub put_run_lem :
    (k : ℕ) (r : Run) (t : Tracer)
    → DistinctIds t.runs
    → let all = with_run k r (find_run k t.runs) t.runs in
      ((put_run k r t).runs ≡ drop (length all - t.max_runs) all)
      × (length (put_run k r t).runs ≤ t.max_runs)
      × (length (put_run k r t).runs + (put_run k r t).dropped_runs
          ≡ length t.runs + t.dropped_runs + fresh (find_run k t.runs))
unfolding put_run
put_run_lem k r t d =
    let is = set_run-with_run k r (find_run k t.runs) t.runs d refl in
    let (few, counted) = length-evict t.max_runs (set_run k r t.runs) in
    (
      evict-drop t.max_runs _ ∙ ap (λ l. drop (length l - t.max_runs) l) is,
      few,
      omega (arith, counted, length-set_run k r t.runs),
    )

module _ {W : Type 0} (p : Platform W) (objects : Objects) where
  put_child-Capped :
      (k : ℕ) (parent : Run) (span : Option Span) (t : Tracer) (s : Sdk W)
      → Capped t
      → Capped (put_child p objects k parent span t s).0
  unfolding put_child
  put_child-Capped k parent none t s c = c
  put_child-Capped k parent (some span) t s c = put_run-Capped k _ t c

  put_root-Capped :
      (k : ℕ) (span : Option Span) (t : Tracer) (s : Sdk W)
      → Capped t
      → Capped (put_root p objects k span t s).0
  unfolding put_root
  put_root-Capped k none t s c = c
  put_root-Capped k (some span) t s c = put_run-Capped k _ t c

  open_under-Capped :
      (parent : Option Run) (k : ℕ) (n a : String) (i : Value) (m : Fields) (t : Tracer) (s : Sdk W)
      → Capped t
      → Capped (open_under p objects parent k n a i m t s).0
  unfolding open_under
  open_under-Capped (some parent) k n a i m t s c = put_child-Capped k parent _ t _ c
  open_under-Capped none k n a i m t s c = put_root-Capped k _ t _ c

  pub open_run-Capped :
      (k : ℕ) (parent : Option ℕ) (n a : String) (i : Value) (m : Fields) (t : Tracer) (s : Sdk W)
      → Capped t
      → Capped (open_run p objects k parent n a i m t s).0
  unfolding open_run
  open_run-Capped k parent n a i m t s c = open_under-Capped _ k n a i m t s c

  close_with-Capped :
      (run : Option Run) (k : ℕ) (o : Outcome) (t : Tracer) (s : Sdk W)
      → Capped t
      → Capped (close_with p objects run k o t s).0
  unfolding close_with
  close_with-Capped none k o t s c = c
  close_with-Capped (some run) k o t s c = record {
    cap = c.cap;
    few = omega (arith, remove_run-shorter k t.runs, c.few);
    ids = remove_run-DistinctIds k t.runs c.ids;
  }

  pub close_run-Capped :
      (k : ℕ) (o : Outcome) (t : Tracer) (s : Sdk W)
      → Capped t
      → Capped (close_run p objects k o t s).0
  unfolding close_run
  close_run-Capped k o t s c = close_with-Capped _ k o t s c

  close_unknown :
      (k : ℕ) (o : Outcome) (t : Tracer) (s : Sdk W)
      → find_run k t.runs ≡ none
      → close_run p objects k o t s ≡ (t, s)
  unfolding close_run close_with
  close_unknown k o t s unknown = rw (unknown, close_run) refl

  close_with_forgets :
      (run : Option Run) (k : ℕ) (o : Outcome) (t : Tracer) (s : Sdk W)
      → find_run k t.runs ≡ run
      → DistinctIds t.runs
      → find_run k (close_with p objects run k o t s).0.runs ≡ none
  unfolding close_with
  close_with_forgets none k o t s is d = is
  close_with_forgets (some run) k o t s is d = find_removed k t.runs d

  -- The end of a run is reported once: with no id twice in the map, closing a run a second time,
  -- with whatever outcome, changes nothing.
  pub close_run-twice :
      (k : ℕ) (first second : Outcome) (t : Tracer) (s : Sdk W)
      → DistinctIds t.runs
      → let (t', s') = close_run p objects k first t s in
        close_run p objects k second t' s' ≡ (t', s')
  close_run-twice k first second t s d =
      let (t', s') = close_run p objects k first t s in
      close_unknown k second t' s' (unfold close_run in close_with_forgets _ k first t s refl d)
