-- ===== src/Value.antt =====
-- Python values as the SDK sees them: what llm_metrics/decorator.py captures, and what the
-- payloads of llm_metrics/models.py hold. `isinstance` tests become the constructors.
use llm_metrics.Prelude.{ℕ, suc, String, Bool, Option, List, [], ◌∷◌, str_eq, if◌then◌else◌}
use llm_metrics.Prelude.Int.{ℤ}

mutual
  pub data Value : Type 0 where
    null : Value
    bool : Bool → Value
    int : ℤ → Value
    -- a float, in millionths
    float : ℤ → Value
    text : String → Value
    -- bytes and bytearray: only the length is ever read
    bytes : ℕ → Value
    -- list, tuple, set, frozenset
    sequence : Items → Value
    -- any Mapping
    mapping : Fields → Value
    -- every other object, by its identity
    object : ℕ → Value

  pub data Items : Type 0 where
    nil : Items
    cons : Value → Items → Items

  -- the items of a mapping in iteration order, key and value
  pub data Fields : Type 0 where
    end : Fields
    field : Value → Value → Fields → Fields

-- `repr`, `str` and `type(value).__name__` of the host's objects, which run the host's own code:
-- `none` means that it raised.
pub record Objects : Type 0 where
  pub repr : Value → Option String
  pub str : Value → Option String
  pub type_name : Value → String

-- `len(items)`, `len(mapping)`
abbrev pub items_length : Items → ℕ
items_length nil = 0
items_length (cons v vs) = suc (items_length vs)

abbrev pub fields_length : Fields → ℕ
fields_length end = 0
fields_length (field k v fs) = suc (fields_length fs)

-- `out[key] = value` on a dict with text keys: a known key keeps its place
abbrev pub put_field : String → Value → Fields → Fields
put_field k v end = field (text k) v end
put_field k v (field (text j) w fs) =
    if str_eq j k then field (text j) v fs else field (text j) w (put_field k v fs)
put_field k v (field j w fs) = field j w (put_field k v fs)

abbrev pub items_of : List Value → Items
items_of [] = nil
items_of (v ∷ vs) = cons v (items_of vs)

-- a dict literal, from its entries in order
abbrev pub fields_of : List (String × Value) → Fields
fields_of [] = end
fields_of ((k, v) ∷ es) = field (text k) v (fields_of es)
