-- ===== src/Examples/LangChain.antt =====
-- A chain and a model call under it.
use llm_metrics.Prelude.{
  ℕ, ◌+◌, ◌-◌, ◌≤◌, ◌≡◌, refl, true, false, none, some, List, [], ◌∷◌, length, drop,
}
use llm_metrics.Prelude.Int.{pos}
use llm_metrics.Value.{null, text, end}
use llm_metrics.Sdk.{Sdk}
use llm_metrics.Decorator.{returned, raising}
use llm_metrics.Duck.{Duck}
use llm_metrics.LangChain.{
  Run, Tracer, new_tracer, put_run, find_run, parent_of, close_run, open_run,
}
use llm_metrics.LangChain.Bounds.{Capped, DistinctIds, with_run, put_run_lem, close_run-twice}
use llm_metrics.LangChain.Nesting.{Nested, open_run-Nested}
use llm_metrics.LangChain.Hooks.Runs.{
  Hook, chain_starts, llm_starts, token_comes, llm_ends, ends, call_hooks, call_hooks-Capped,
}
use llm_metrics.Examples.Sending.{objects, trace, observation}
use llm_metrics.Examples.Tracing.{platform, start, boom}

abbrev pub duck : Duck
duck = record {
  getattr = λ v k. null;
  truth = λ n. true;
  elements = λ v. none;
  same = λ a b. false;
  len = λ n. none;
  dump = λ name v. none;
  round_ms = λ n. n;
  rate = λ tokens time. tokens;
}

-- the run of a chain, whose observation is at address 1 and whose trace is at address 0
abbrev chain : Run
chain = record {
  span = record { observation = 1; trace = some 0; sampled = true; started = pos 0 };
  trace = some 0;
  started = pos 0;
  first_token_at = none;
}

-- two open runs, at the cap
abbrev tracer : Tracer
tracer = record {
  trace_name = none;
  user_id = some "ada";
  metadata = end;
  max_runs = 2;
  runs = (7, chain) ∷ (8, chain) ∷ [];
  dropped_runs = 0;
}

abbrev chained : Sdk ℕ
chained = record start { traces = λ t. some trace; observations = λ o. some observation; next = 2 }

tracer-DistinctIds : DistinctIds tracer.runs
unfolding DistinctIds find_run
tracer-DistinctIds = (refl, (refl, tt))

put_run_lem_example :
    let all = with_run 9 chain (find_run 9 tracer.runs) tracer.runs in
    ((put_run 9 chain tracer).runs ≡ drop (length all - 2) all)
    × (length (put_run 9 chain tracer).runs ≤ 2)
    × (length (put_run 9 chain tracer).runs + (put_run 9 chain tracer).dropped_runs ≡ 3)
unfolding find_run
put_run_lem_example = put_run_lem 9 chain tracer tracer-DistinctIds

close_run-twice_example :
    let (t, s) = close_run platform objects 7 (returned null) tracer chained in
    close_run platform objects 7 (raising boom) t s ≡ (t, s)
close_run-twice_example =
    close_run-twice platform objects 7 (returned null) (raising boom) tracer chained
      tracer-DistinctIds

open_run-Nested_example :
    Nested platform objects trace observation.id 9 chain tracer
      (open_run platform objects 9 (some 7) "call" "span" null end tracer chained)
open_run-Nested_example =
    open_run-Nested platform objects 9 (some 7) chain "call" "span" null end 0 trace observation
      tracer chained refl (unfold parent_of in unfold find_run in refl) refl refl refl

abbrev hooks : List Hook
hooks =
    chain_starts null (text "question") 1 none end
    ∷ llm_starts null (text "prompt") 2 (some 1) end
    ∷ token_comes 2
    ∷ llm_ends null 2
    ∷ ends (returned (text "answer")) 1
    ∷ []

call_hooks-Capped_example :
    Capped (call_hooks platform objects duck hooks (new_tracer none none end 0) start).0
call_hooks-Capped_example = call_hooks-Capped platform objects duck hooks none none end 0 start
