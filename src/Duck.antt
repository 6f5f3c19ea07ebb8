-- ===== src/Duck.antt =====
-- How the modules under llm_metrics/integrations read the objects of the provider packages: `_get`
-- and truth tests, on attribute objects and plain dicts alike. What belongs to the objects
-- themselves is the record `Duck`.
use llm_metrics.Prelude.{
  ℕ, suc, ◌*◌, String, Bool, true, false, not, Option, some, List, [], ◌∷◌, is_blank, or_else,
  if◌then◌else◌, ◌==◌, str_eq, none, first_some, is_some, text_length,
}
use llm_metrics.Prelude.Int.{ℤ, pos, negsuc, sub_ℕ}
use llm_metrics.Value.{
  Value, null, bool, int, float, text, bytes, sequence, mapping, object, Items, nil, cons, Fields,
  end, field, put_field, items_length, fields_length,
}
use llm_metrics.Models.Wire.{get_field}

pub record Duck : Type 0 where
  -- `getattr(obj, name, None)`
  pub getattr : Value → String → Value
  -- `bool(obj)` of an object that is no builtin
  pub truth : ℕ → Bool
  -- what iterating a value that is no list gives; nothing if it raises a `TypeError`
  pub elements : Value → Option (List Value)
  -- `a == b` where one of the two is no text
  pub same : Value → Value → Bool
  -- `len(obj)` of an object that is no builtin; nothing if it raises
  pub len : ℕ → Option ℕ
  -- calling the method of that name; nothing if there is none, or if it raised
  pub dump : String → Value → Option Value
  -- a span of nanoseconds as rounded milliseconds, and a rounded rate of tokens per second, both in
  -- millionths
  pub round_ms : ℤ → ℤ
  pub rate : ℤ → ℤ → ℤ

abbrev pub is_zero : ℤ → Bool
is_zero (pos n) = n == 0
is_zero (negsuc n) = false

abbrev values_of : Items → List Value
values_of nil = []
values_of (cons v vs) = v ∷ values_of vs

abbrev pub is_null : Value → Bool
is_null null = true
is_null v = false

-- `v == t` for a text `t`
abbrev pub is_text : String → Value → Bool
is_text t (text u) = str_eq u t
is_text t v = false

-- `isinstance(v, int)`, which a bool is
unfoldable pub as_int : Value → Option ℤ
as_int (int n) = some n
as_int (bool true) = some (pos 1)
as_int (bool false) = some (pos 0)
as_int v = none

-- an int that is no bool
unfoldable pub strict_int : Value → Option ℤ
strict_int (int n) = some n
strict_int v = none

-- `key in out`
abbrev pub has_key : String → Fields → Bool
has_key k fs = is_some (get_field k fs)

-- `_prune`; a dump holds lists, and no tuples or sets
unfoldable mutual
  prune : Value → Value
  prune (mapping fs) = mapping (prune_fields fs)
  prune (sequence vs) = sequence (prune_items vs)
  prune v = v

  prune_items : Items → Items
  prune_items nil = nil
  prune_items (cons v vs) = cons (prune v) (prune_items vs)

  prune_fields : Fields → Fields
  prune_fields end = end
  prune_fields (field k null fs) = prune_fields fs
  prune_fields (field k v fs) = field k (prune v) (prune_fields fs)

module _ (d : Duck) where
  -- `_get`
  unfoldable pub get : Value → String → Value
  get null k = null
  get (mapping fs) k = or_else (get_field k fs) null
  get v k = d.getattr v k

  unfoldable pub truthy : Value → Bool
  truthy null = false
  truthy (bool b) = b
  truthy (int n) = not (is_zero n)
  truthy (float x) = not (is_zero x)
  truthy (text s) = not (is_blank s)
  truthy (bytes n) = not (n == 0)
  truthy (sequence nil) = false
  truthy (sequence (cons v vs)) = true
  truthy (mapping end) = false
  truthy (mapping (field k v fs)) = true
  truthy (object n) = d.truth n

  -- `len(v)`; nothing if it raises
  unfoldable pub length_of : Value → Option ℕ
  length_of (text s) = some (text_length s)
  length_of (bytes n) = some n
  length_of (sequence vs) = some (items_length vs)
  length_of (mapping fs) = some (fields_length fs)
  length_of (object n) = d.len n
  length_of v = none

  -- `a or b`
  unfoldable pub either : Value → Value → Value
  unfolding truthy
  either a b = if truthy a then a else b

  unfoldable pub iterate : Value → Option (List Value)
  iterate (sequence vs) = some (values_of vs)
  iterate v = d.elements v

  -- `_plain`
  unfoldable pub plain : Value → Value
  unfolding prune
  plain v = elim (first_some (d.dump "model_dump" v) (d.dump "to_dict" v)) [
    | none ↦ v
    | some dumped ↦ prune dumped
  ]

  -- the elements of `v or ()`; nothing if that raises
  unfoldable pub iterate_or : Value → Option (List Value)
  unfolding truthy iterate
  iterate_or v = if truthy v then iterate v else some []

  unfoldable pub truthy_only : List Value → List Value
  unfolding truthy
  truthy_only [] = []
  truthy_only (v ∷ vs) = let rest = truthy_only vs in if truthy v then v ∷ rest else rest

  -- `{key: kwargs[key] for key in keys if key in kwargs}`
  unfoldable pub picked : List String → Fields → Fields → Fields
  picked [] kwargs out = out
  picked (k ∷ ks) kwargs out =
      picked ks kwargs (elim (get_field k kwargs) [ none ↦ out | some v ↦ put_field k v out ])

-- `float(n)` of an int
abbrev pub to_float : ℤ → ℤ
to_float (pos n) = pos (n * 1000000)
to_float (negsuc n) = sub_ℕ 0 (suc n * 1000000)

-- `out.update(new)`; the keys of metadata are texts
unfoldable pub update_fields : Fields → Fields → Fields
update_fields end out = out
update_fields (field (text k) v fs) out = update_fields fs (put_field k v out)
update_fields (field k v fs) out = update_fields fs (field k v out)
