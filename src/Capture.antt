-- ===== src/Capture.antt =====
-- How llm_metrics/decorator.py bounds and redacts a captured value: `_summarise`, `_clip`,
-- `_safe_repr`, `summarise`, `redact`. `none` means that the host's own code raised.
pub mod Bounds
use llm_metrics.Prelude.{
  ℕ, zero, suc, ◌+◌, ◌-◌, String, Bool, true, false, Option, none, some, leb, ltb, if◌then◌else◌,
  text_length, text_take, ◌⧺◌, decimal,
}
use llm_metrics.Value.{
  Value, null, bool, int, float, text, bytes, sequence, mapping, object, Items, nil, cons, Fields,
  end, field, Objects, items_length, fields_length, put_field,
}

infixl 5 ◌>>=◌
abbrev ◌>>=◌ {ℓ κ} : {A : Type ℓ} {B : Type κ} → Option A → (A → Option B) → Option B
none >>= f = none
some a >>= f = f a

abbrev pub max_depth : ℕ
max_depth = 3

abbrev pub max_items : ℕ
max_items = 100

unfoldable pub clip : String → ℕ → String
clip t limit =
    if leb (text_length t) limit
    then t
    else text_take limit t ⧺ "... [" ⧺ decimal (text_length t - limit) ⧺ " chars truncated]"

-- `f"+{n} more"`, where `n` entries are left
unfoldable pub more_text : ℕ → Value
more_text n = text ("+" ⧺ decimal n ⧺ " more")

module _ (o : Objects) where
  unfoldable safe_repr : Value → String
  safe_repr v = elim (o.repr v) [ some s ↦ s | none ↦ "<unreprable " ⧺ o.type_name v ⧺ ">" ]

  -- `str(key)`: a text is its own `str`
  unfoldable pub key_text : Value → Option String
  key_text (text s) = some s
  key_text k = o.str k

  -- `room` counts the levels that are still walked, `left` the entries of a container that are
  -- still kept.
  unfoldable mutual
    unfolding clip safe_repr key_text more_text

    pub summarise_value : Value → ℕ → ℕ → Option Value
    summarise_value null limit room = some null
    summarise_value (bool b) limit room = some (bool b)
    summarise_value (int n) limit room = some (int n)
    summarise_value (float x) limit room = some (float x)
    summarise_value (text s) limit room = some (text (clip s limit))
    summarise_value (bytes n) limit room = some (text ("<" ⧺ decimal n ⧺ " bytes>"))
    summarise_value (sequence vs) limit zero = some (text (clip (safe_repr (sequence vs)) limit))
    summarise_value (sequence vs) limit (suc room) = do
      out ← summarise_items vs limit room max_items
      some (sequence out)
    summarise_value (mapping fs) limit zero = some (text (clip (safe_repr (mapping fs)) limit))
    summarise_value (mapping fs) limit (suc room) = do
      out ← summarise_fields fs limit room max_items end
      some (mapping out)
    summarise_value (object i) limit room = some (text (clip (safe_repr (object i)) limit))

    pub summarise_items : Items → ℕ → ℕ → ℕ → Option Items
    summarise_items nil limit room left = some nil
    summarise_items (cons v vs) limit room zero =
        some (cons (text ("...+" ⧺ decimal (suc (items_length vs)) ⧺ " more")) nil)
    summarise_items (cons v vs) limit room (suc left) = do
      out ← summarise_value v limit room
      rest ← summarise_items vs limit room left
      some (cons out rest)

    pub summarise_fields : Fields → ℕ → ℕ → ℕ → Fields → Option Fields
    summarise_fields end limit room left out = some out
    summarise_fields (field k v fs) limit room zero out =
        some (put_field "..." (more_text (suc (fields_length fs))) out)
    summarise_fields (field k v fs) limit room (suc left) out = do
      key ← key_text k
      item ← summarise_value v limit room
      summarise_fields fs limit room left (put_field key item out)

  -- `_summarise(value, limit)`, at depth 0
  unfoldable pub summarise_at : ℕ → Value → Option Value
  unfolding summarise_value
  summarise_at limit v = summarise_value v limit max_depth

  -- `summarise`: what raises becomes `None`
  unfoldable pub summarise : ℕ → Value → Value
  unfolding summarise_at
  summarise limit v = elim (summarise_at limit v) [ some out ↦ out | none ↦ null ]

-- `redact`; the redactor's `none` means that it raised
unfoldable pub redact : Option (Value → Option Value) → Value → Value
redact redactor null = null
redact none v = v
redact (some f) v = elim (f v) [ some out ↦ out | none ↦ null ]
