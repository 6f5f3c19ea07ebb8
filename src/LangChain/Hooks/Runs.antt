-- ===== src/LangChain/Hooks/Runs.antt =====
-- Any sequence of callbacks of llm_metrics/integrations/langchain.py.
use llm_metrics.Prelude.{ℕ, ◌≡◌, refl, ap, String, Option, none, some, List, [], ◌∷◌, arith}
use llm_metrics.Value.{Value, Fields, Objects}
use llm_metrics.Sdk.{Platform, Sdk}
use llm_metrics.Duck.{Duck}
use llm_metrics.Decorator.{Outcome}
use llm_metrics.LangChain.{Run, Tracer, new_tracer, find_run}
use llm_metrics.LangChain.Bounds.{
  Capped, DistinctIds, fresh, length-set_run, set_run-DistinctIds, open_run-Capped,
  close_run-Capped,
}
use llm_metrics.LangChain.Hooks.{
  open_named, on_chain_start, on_end, on_tool_start, on_retriever_start, start_generation,
  on_llm_start, on_chat_model_start, mark_token, on_llm_new_token, llm_close, llm_model_close,
  llm_end, on_llm_end, on_retriever_end,
}

-- a call of one of the hooks
pub data Hook : Type 0 where
  chain_starts llm_starts chat_model_starts retriever_starts :
      Value → Value → ℕ → Option ℕ → Fields → Hook
  tool_starts : Value → Value → Option Value → ℕ → Option ℕ → Fields → Hook
  ends : Outcome → ℕ → Hook
  token_comes : ℕ → Hook
  llm_ends : Value → ℕ → Hook
  retriever_ends : List Value → ℕ → Hook

module _ {W : Type 0} (p : Platform W) (objects : Objects) (d : Duck) where
  call_hook : Hook → Tracer → Sdk W → Tracer × Sdk W
  call_hook (chain_starts z v k parent kwargs) = on_chain_start p objects d z v k parent kwargs
  call_hook (llm_starts z v k parent kwargs) = on_llm_start p objects d z v k parent kwargs
  call_hook (chat_model_starts z v k parent kwargs) =
      on_chat_model_start p objects d z v k parent kwargs
  call_hook (retriever_starts z v k parent kwargs) =
      on_retriever_start p objects d z v k parent kwargs
  call_hook (tool_starts z v inputs k parent kwargs) =
      on_tool_start p objects d z v inputs k parent kwargs
  call_hook (ends outcome k) = on_end p objects d outcome k
  call_hook (token_comes k) = on_llm_new_token p objects d k
  call_hook (llm_ends response k) = on_llm_end p objects d response k
  call_hook (retriever_ends documents k) = on_retriever_end p objects d documents k

  pub call_hooks : List Hook → Tracer → Sdk W → Tracer × Sdk W
  call_hooks [] t s = (t, s)
  call_hooks (h ∷ hs) t s = let (t', s') = call_hook h t s in call_hooks hs t' s'

  open_named-Capped :
      (n : Option String) (tags : Option Fields) (a : String) (v : Value) (k : ℕ)
      (parent : Option ℕ) (t : Tracer) (s : Sdk W)
      → Capped t
      → Capped (open_named p objects d n tags a v k parent t s).0
  unfolding open_named
  open_named-Capped none tags a v k parent t s c = c
  open_named-Capped (some n) none a v k parent t s c = c
  open_named-Capped (some n) (some tags) a v k parent t s c =
      open_run-Capped p objects k parent n a v tags t s c

  start_generation-Capped :
      (z v : Value) (k : ℕ) (parent : Option ℕ) (kwargs : Fields) (t : Tracer) (s : Sdk W)
      → Capped t
      → Capped (start_generation p objects d z v k parent kwargs t s).0
  unfolding start_generation
  start_generation-Capped z v k parent kwargs t s c =
      open_named-Capped _ _ "generation" v k parent t s c

  mark_token-Capped :
      (run : Option Run) (k : ℕ) (t : Tracer) (s : Sdk W)
      → find_run k t.runs ≡ run
      → Capped t
      → Capped (mark_token p objects d run k t s).0
  unfolding mark_token
  mark_token-Capped none k t s is c = c
  mark_token-Capped (some run) k t s is c = record {
    cap = c.cap;
    few = omega (arith, length-set_run k _ t.runs, ap fresh is, c.few);
    ids = set_run-DistinctIds k _ t.runs c.ids;
  }

  llm_close-Capped :
      (reason : Option (Option String)) (run : Run) (response : Value) (k : ℕ) (t : Tracer)
      (s : Sdk W)
      → Capped t
      → Capped (llm_close p objects d reason run response k t s).0
  unfolding llm_close
  llm_close-Capped none run response k t s c = c
  llm_close-Capped (some reason) run response k t s c = close_run-Capped p objects k _ t _ c

  llm_model_close-Capped :
      (model : Option Value) (run : Run) (response : Value) (k : ℕ) (t : Tracer) (s : Sdk W)
      → Capped t
      → Capped (llm_model_close p objects d model run response k t s).0
  unfolding llm_model_close
  llm_model_close-Capped none run response k t s c = c
  llm_model_close-Capped (some model) run response k t s c = llm_close-Capped _ run response k t _ c

  llm_end-Capped :
      (run : Option Run) (response : Value) (k : ℕ) (t : Tracer) (s : Sdk W)
      → Capped t
      → Capped (llm_end p objects d run response k t s).0
  unfolding llm_end
  llm_end-Capped none response k t s c = c
  llm_end-Capped (some run) response k t s c = llm_model_close-Capped _ run response k t _ c

  call_hook-Capped : (h : Hook) (t : Tracer) (s : Sdk W) → Capped t → Capped (call_hook h t s).0
  unfolding call_hook on_chain_start on_llm_start on_chat_model_start on_retriever_start
      on_tool_start on_end on_llm_new_token on_llm_end on_retriever_end
  call_hook-Capped (chain_starts z v k parent kwargs) t s c =
      open_named-Capped _ _ "span" v k parent t s c
  call_hook-Capped (llm_starts z v k parent kwargs) t s c =
      start_generation-Capped z v k parent kwargs t s c
  call_hook-Capped (chat_model_starts z v k parent kwargs) t s c =
      start_generation-Capped z _ k parent kwargs t s c
  call_hook-Capped (retriever_starts z v k parent kwargs) t s c =
      open_named-Capped _ _ "retrieval" v k parent t s c
  call_hook-Capped (tool_starts z v inputs k parent kwargs) t s c =
      open_named-Capped _ _ "tool" _ k parent t s c
  call_hook-Capped (ends outcome k) t s c = close_run-Capped p objects k outcome t s c
  call_hook-Capped (token_comes k) t s c = mark_token-Capped _ k t s refl c
  call_hook-Capped (llm_ends response k) t s c = llm_end-Capped _ response k t s c
  call_hook-Capped (retriever_ends documents k) t s c = close_run-Capped p objects k _ t _ c

  call_hooks-all :
      (hs : List Hook) (t : Tracer) (s : Sdk W) → Capped t → Capped (call_hooks hs t s).0
  unfolding call_hooks
  call_hooks-all [] t s c = c
  call_hooks-all (h ∷ hs) t s c =
      let (t', s') = call_hook h t s in call_hooks-all hs t' s' (call_hook-Capped h t s c)

  -- Whatever hooks LangChain calls on a new tracer, with whatever ids and in whatever order, never
  -- more runs are held than the cap of the tracer, which is at least 1, and no id is held twice.
  pub call_hooks-Capped :
      (hs : List Hook) (name user : Option String) (metadata : Fields) (cap : ℕ) (s : Sdk W)
      → Capped (call_hooks hs (new_tracer name user metadata cap) s).0
  unfolding new_tracer DistinctIds
  call_hooks-Capped hs name user metadata cap s =
      call_hooks-all hs (new_tracer name user metadata cap) s
        (record { cap = omega arith; few = omega arith; ids = tt })
