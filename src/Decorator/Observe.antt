-- ===== src/Decorator/Observe.antt =====
-- `observe` of llm_metrics/decorator.py: what is decided when a function is decorated, and how the
-- arguments of a call are captured. Signatures belong to the host: `bind_partial` with its
-- defaults is the parameter `bind`.
use llm_metrics.Prelude.{
  ℕ, String, Bool, true, false, ◌||◌, Option, none, some, List, [], ◌∷◌, is_blank, or_else, str_eq,
  if◌then◌else◌, ◌≡◌, refl, str_eq_iff, ◌∙◌, ap, sym, Bool-cases, Option-cases, arith, inl, inr,
  not, ◌&&◌, is_some, subst,
}
use llm_metrics.Value.{
  Value, text, sequence, mapping, Fields, end, fields_of, put_field, items_of, Objects,
}
use llm_metrics.Capture.{summarise_at}
use llm_metrics.Models.Wire.{get_field, get_field-put_field}
use llm_metrics.Sdk.{Platform, Sdk}
use llm_metrics.Decorator.{Span, Spec, Outcome, begin, wrap_sync}

-- a name that is a text and not empty
abbrev named : Value → Option String
named (text t) = if is_blank t then none else some t
named v = none

abbrev first_name : Option String → Option String → String
first_name (some a) b = a
first_name none (some b) = b
first_name none none = "observed"

-- `_default_name`, of `__qualname__` and `__name__` (`None` where there is none)
unfoldable default_name : (qualname name : Value) → String
default_name qualname name = first_name (named qualname) (named name)

abbrev given_name : Option String → String → String
given_name none default = default
given_name (some n) default = if is_blank n then default else n

-- `_Spec.__init__`, without the signature
unfoldable new_spec :
    (qualname name_attr : Value)
    → Option String
    → String
    → Option Bool
    → Option Bool
    → Option Fields
    → Spec
unfolding default_name
new_spec qualname name_attr name as_type capture_input capture_output metadata = record {
  name = given_name name (default_name qualname name_attr);
  as_type = as_type;
  capture_input = capture_input;
  capture_output = capture_output;
  metadata = or_else metadata end;
}

-- the four shapes of a function; an async generator function is none of the other three
data Shape : Type 0 where
  async_generator coroutine generator plain : Shape

-- the tests of `decorate`, in order
unfoldable shape_of : (is_async_gen is_coroutine is_generator : Bool) → Shape
shape_of true c g = async_generator
shape_of false true g = coroutine
shape_of false false true = generator
shape_of false false false = plain

-- What `signature` is and does: none, or how it binds a call; nothing if that raises `TypeError`.
pub data Signature : Type 0 where
  unreadable : Signature
  binds : (List Value → List (String × Value) → Option (List (String × Value))) → Signature

-- `_SKIPPED_PARAMS`
unfoldable pub is_skipped : String → Bool
is_skipped name = str_eq "self" name || str_eq "cls" name

module _ (objects : Objects) where
  infixl 5 ◌>>=◌
  abbrev ◌>>=◌ {ℓ κ} : {A : Type ℓ} {B : Type κ} → Option A → (A → Option B) → Option B
  none >>= f = none
  some a >>= f = f a

  -- the dict over the bound arguments; nothing if summarising raises
  unfoldable captured_names : ℕ → List (String × Value) → Fields → Option Fields
  unfolding is_skipped summarise_at
  captured_names limit [] out = some out
  captured_names limit ((name, v) ∷ rest) out =
      let kept = (do
        item ← summarise_at objects limit v
        captured_names limit rest (put_field name item out)) in
      let skipped = captured_names limit rest out in if is_skipped name then skipped else kept

  -- the dict for a call that was not bound
  unfoldable raw_arguments : ℕ → List Value → List (String × Value) → Option Value
  unfolding summarise_at
  raw_arguments limit args kwargs = summarise_at objects limit (
      mapping (
        fields_of
          (("args", sequence (items_of args)) ∷ ("kwargs", mapping (fields_of kwargs)) ∷ [])))

  abbrev bound_arguments :
      ℕ → List Value → List (String × Value) → Option (List (String × Value)) → Option Value
  bound_arguments limit args kwargs none = raw_arguments limit args kwargs
  bound_arguments limit args kwargs (some bound) = do
    out ← captured_names limit bound end
    some (mapping out)

  -- `_capture_arguments`; nothing if it raises
  unfoldable pub capture_arguments :
      Signature → List Value → List (String × Value) → ℕ → Option Value
  unfolding raw_arguments captured_names
  capture_arguments unreadable args kwargs limit = raw_arguments limit args kwargs
  capture_arguments (binds bind) args kwargs limit =
      bound_arguments limit args kwargs (bind args kwargs)

  -- `_begin` of a call with its arguments
  unfoldable begin_call :
      {W : Type 0} (p : Platform W)
      → Spec
      → Signature
      → List Value
      → List (String × Value)
      → Sdk W
      → Option Span × Sdk W
  unfolding begin capture_arguments
  begin_call p spec signature args kwargs s =
      begin p spec (capture_arguments signature args kwargs s.runtime.settings.max_value_chars) s

  -- a plain function under `observe`, called with its arguments
  unfoldable observed :
      {W : Type 0} (p : Platform W)
      → Spec
      → Signature
      → (List Value → List (String × Value) → Sdk W → Outcome × Sdk W)
      → List Value
      → List (String × Value)
      → Sdk W
      → Outcome × Sdk W
  unfolding wrap_sync capture_arguments
  observed p spec signature func args kwargs s =
      wrap_sync p objects spec
        (capture_arguments signature args kwargs s.runtime.settings.max_value_chars)
        (func args kwargs) s

  -- the name stands for an argument of the call
  abbrev pub is_bound : String → List (String × Value) → Bool
  is_bound name [] = false
  is_bound name ((n, v) ∷ rest) = str_eq n name || is_bound name rest

  -- the name is none of the two that are never captured
  abbrev pub is_plain : String → Bool
  is_plain name = not (str_eq "self" name) && not (str_eq "cls" name)

  skipped-plain : (n name : String) → is_skipped n ≡ true → (str_eq n name && is_plain name) ≡ false
  unfolding is_skipped
  skipped-plain n name skip = elim (Bool-cases (str_eq n name)) [
    | inl same ↦
        let skip' : is_skipped name ≡ true =
          subst (λ (m : String). is_skipped m ≡ true) ((str_eq_iff n name).0 same) skip in
        ground arith
    | inr other ↦ rw other
  ]

  kept-plain :
      (n name : String) → is_skipped n ≡ false → (str_eq n name && is_plain name) ≡ str_eq n name
  unfolding is_skipped
  kept-plain n name keep = elim (Bool-cases (str_eq n name)) [
    | inl same ↦
        let keep' : is_skipped name ≡ false =
          subst (λ (m : String). is_skipped m ≡ false) ((str_eq_iff n name).0 same) keep in
        ground arith
    | inr other ↦ rw other
  ]

  captured_names-bound :
      (limit : ℕ) (name : String) (bound : List (String × Value)) (out result : Fields)
      → captured_names limit bound out ≡ some result
      → is_some (get_field name result)
        ≡ (is_some (get_field name out) || (is_bound name bound && is_plain name))
  unfolding captured_names
  captured_names-bound limit name [] out result is =
      ap (λ o. is_some (get_field name (or_else o out))) (sym is) ∙ ground arith
  captured_names-bound limit name ((n, v) ∷ rest) out result is = elim (Bool-cases (is_skipped n)) [
    | inl drop ↦ ground (
      arith,
      captured_names-bound limit name rest out result (rw drop at is),
      skipped-plain n name drop,
    )
    | inr keep ↦ elim (Option-cases (summarise_at objects limit v)) [
      | inl failed ↦ cc (rw (keep, failed) at is)
      | inr (item, done) ↦ ground (
        arith,
        captured_names-bound limit name rest (put_field n item out) result (rw (keep, done) at is),
        get_field-put_field name n item out,
        kept-plain n name keep,
      )
    ]
  ]

  bound_arguments-bound :
      (limit : ℕ) (name : String) (bound : List (String × Value)) (captured : Option Fields)
      (result : Value)
      → captured_names limit bound end ≡ captured
      → (captured >>= λ out. some (mapping out)) ≡ some result
      → (fs : Fields) × (result ≡ mapping fs)
        × (is_some (get_field name fs) ≡ (is_bound name bound && is_plain name))
  unfolding get_field
  bound_arguments-bound limit name bound none result is done = cc
  bound_arguments-bound limit name bound (some out) result is done = (
    out,
    ap (λ o. or_else o (mapping out)) (sym done),
    captured_names-bound limit name bound end out is,
  )

  -- Whatever a call's arguments are, and however the signature binds them: if the call was bound
  -- and nothing raised, what is captured is a mapping in which a name has an entry exactly if an
  -- argument was bound to it and it is neither `self` nor `cls`.
  pub capture_arguments-bound :
      (bind : List Value → List (String × Value) → Option (List (String × Value)))
      (args : List Value) (kwargs : List (String × Value)) (limit : ℕ) (name : String)
      (bound : List (String × Value)) (result : Value)
      → bind args kwargs ≡ some bound
      → capture_arguments (binds bind) args kwargs limit ≡ some result
      → (fs : Fields) × (result ≡ mapping fs)
        × (is_some (get_field name fs) ≡ (is_bound name bound && is_plain name))
  unfolding capture_arguments
  capture_arguments-bound bind args kwargs limit name bound result fits is =
      bound_arguments-bound limit name bound (captured_names limit bound end) result refl
        (rw fits at is)
