-- ===== src/Examples/Generating.antt =====
-- A decorated generator function and its consumer.
use llm_metrics.Prelude.{zero, suc, ℕ, refl, some, List, [], ◌∷◌}
use llm_metrics.Prelude.Int.{pos}
use llm_metrics.Value.{null, int}
use llm_metrics.Decorator.Scope.{KeepsContext}
use llm_metrics.Stream.{Step, chunk, stopped, failing}
use llm_metrics.Generator.{Body, made, fresh}
use llm_metrics.Generator.Context.{Tidy, Call, consume, async_consume, Clean, consume-Clean}
use llm_metrics.Examples.Sending.{objects}
use llm_metrics.Examples.Tracing.{platform, start, spec}

abbrev countdown : ℕ → Step × ℕ
countdown zero = (stopped, 0)
countdown (suc m) = (chunk (int (pos m)), m)

-- a generator function of two items
abbrev two : Body ℕ ℕ
two = record {
  invoke = λ s. (made 2, s);
  advance = λ n s. (countdown n, s);
  dispose = λ n s. s;
  throw_in = λ n e s. ((failing e, 0), s);
}

two-Tidy : Tidy two
unfolding KeepsContext
two-Tidy = record {
  invoke = λ s. refl;
  advance = λ n s. refl;
  dispose = λ n s. refl;
  throw_in = λ n e s. refl;
}

abbrev pulls : List Call
pulls = Call.nexts ∷ Call.nexts ∷ Call.closes ∷ []

consume-Clean_example :
    let r = consume platform objects spec two (some null) pulls ([], fresh, start) in
    let a = async_consume platform objects spec two (some null) pulls ([], fresh, start) in
    Clean platform objects spec two (some null) start r.0 (r.1, r.2)
    × Clean platform objects spec two (some null) start a.0 (a.1, a.2)
consume-Clean_example = consume-Clean platform objects spec two (some null) two-Tidy pulls start
