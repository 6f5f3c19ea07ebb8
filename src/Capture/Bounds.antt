-- ===== src/Capture/Bounds.antt =====
-- How large a captured value can be (`_clip` and `_summarise` of llm_metrics/decorator.py).
use llm_metrics.Prelude.{
  ℕ, zero, suc, ◌+◌, ◌-◌, ◌≤◌, String, Option, none, some, arith, text_length, text_take, ◌⧺◌,
  decimal, text_length-append, text_length-take-le, leb, inl, inr, Bool-cases, str_eq, max,
  Option-cases, subst,
}
use llm_metrics.Value.{
  Value, null, text, sequence, mapping, Items, nil, cons, Fields, end, field, Objects, items_length,
  fields_length, put_field,
}
use llm_metrics.Capture.{
  ◌>>=◌, clip, max_items, max_depth, more_text, key_text, summarise_value, summarise_items,
  summarise_fields, summarise,
}

-- A clipped text is at most as long as the limit, 22 characters and the digits of the number of
-- characters cut.
clip_bounds :
    (t : String) (limit : ℕ)
    → text_length (clip t limit) ≤ limit + 22 + text_length (decimal (text_length t - limit))
unfolding clip
clip_bounds t limit = elim (Bool-cases (leb (text_length t) limit)) [
  | inl short ↦ rw short (ground arith)
  | inr long ↦ rw long (
      omega (
        arith,
        text_length-take-le limit t,
        text_length-append (text_take limit t)
            ("... [" ⧺ decimal (text_length t - limit) ⧺ " chars truncated]"),
        text_length-append (decimal (text_length t - limit)) " chars truncated]",
      ))
]

-- how deep containers are nested
mutual
  pub depth : Value → ℕ
  depth (sequence vs) = suc (items_depth vs)
  depth (mapping fs) = suc (fields_depth fs)
  depth v = 0

  items_depth : Items → ℕ
  items_depth nil = 0
  items_depth (cons v vs) = max (depth v) (items_depth vs)

  fields_depth : Fields → ℕ
  fields_depth end = 0
  fields_depth (field k v fs) = max (depth v) (fields_depth fs)

-- the size of the largest container
mutual
  pub width : Value → ℕ
  width (sequence vs) = max (items_length vs) (items_width vs)
  width (mapping fs) = max (fields_length fs) (fields_width fs)
  width v = 0

  items_width : Items → ℕ
  items_width nil = 0
  items_width (cons v vs) = max (width v) (items_width vs)

  fields_width : Fields → ℕ
  fields_width end = 0
  fields_width (field k v fs) = max (width v) (fields_width fs)

-- At most `room` levels, and in each container at most `max_items` entries and one note.
pub record Fits (room : ℕ) (v : Value) : Type 0 where
  pub shallow : depth v ≤ room
  pub narrow : width v ≤ suc max_items

record ItemsFit (room n : ℕ) (vs : Items) : Type 0 where
  shallow : items_depth vs ≤ room
  narrow : items_width vs ≤ suc max_items
  short : items_length vs ≤ n

record FieldsFit (room n : ℕ) (fs : Fields) : Type 0 where
  shallow : fields_depth fs ≤ room
  narrow : fields_width fs ≤ suc max_items
  short : fields_length fs ≤ n

-- what holds of the value, if there is one
abbrev Ensures {ℓ κ} : {A : Type ℓ} → (A → Type κ) → Option A → Type κ
Ensures P none = Unit
Ensures P (some a) = P a

Ensures-bind {ℓ κ} :
    {A B : Type ℓ} (P : A → Type κ) (Q : B → Type κ) (m : Option A) (f : A → Option B)
    → Ensures P m
    → ((a : A) → P a → Ensures Q (f a))
    → Ensures Q (m >>= f)
Ensures-bind P Q none f h k = tt
Ensures-bind P Q (some a) f h k = k a h

Ensures-mono {ℓ κ} :
    {A : Type ℓ} (P Q : A → Type κ) (m : Option A)
    → ((a : A) → P a → Q a)
    → Ensures P m
    → Ensures Q m
Ensures-mono P Q none f h = tt
Ensures-mono P Q (some a) f h = f a h

always {ℓ} : {A : Type ℓ} (m : Option A) → Ensures (λ _. Unit {0}) m
always none = tt
always (some a) = tt

put_field-FieldsFit :
    (k : String) (v : Value) (room n : ℕ) (fs : Fields)
    → Fits room v
    → FieldsFit room n fs
    → FieldsFit room (suc n) (put_field k v fs)
unfolding depth width
put_field-FieldsFit k v room n end hv h = omega arith
put_field-FieldsFit k v room zero (field j w fs) hv h = absurd (omega arith)
put_field-FieldsFit k v room (suc n) (field (text j) w fs) hv h =
    let rest = put_field-FieldsFit k v room n fs hv (omega arith) in
    elim (Bool-cases (str_eq j k)) [
      | inl same ↦ rw same (omega arith)
      | inr other ↦ rw other (omega arith)
    ]
put_field-FieldsFit k v room (suc n) (field _ w fs) hv h =
    let rest = put_field-FieldsFit k v room n fs hv (omega arith) in omega arith

module _ (o : Objects) where
  mutual
    unfolding summarise_value depth width

    value-Fits : (v : Value) (limit room : ℕ) → Ensures (Fits room) (summarise_value o v limit room)
    value-Fits null limit room = omega arith
    value-Fits (sequence vs) limit zero = omega arith
    value-Fits (sequence vs) limit (suc room) =
        Ensures-bind (ItemsFit room (suc max_items)) (Fits (suc room)) _ _
          (items-Fit vs limit room max_items) (λ out h. omega arith)
    value-Fits (mapping vs) limit zero = omega arith
    value-Fits (mapping vs) limit (suc room) =
        Ensures-bind (FieldsFit room (suc max_items)) (Fits (suc room)) _ _
          (fields-Fit vs limit room max_items 0 end (omega arith)) (λ out h. omega arith)
    value-Fits _ limit room = omega arith

    items-Fit :
        (vs : Items) (limit room left : ℕ)
        → Ensures (ItemsFit room (suc left)) (summarise_items o vs limit room left)
    items-Fit nil limit room left = omega arith
    items-Fit (cons v vs) limit room zero = omega arith
    items-Fit (cons v vs) limit room (suc left) =
        Ensures-bind (Fits room) (ItemsFit room (suc (suc left))) _ _ (value-Fits v limit room)
          λ out h.
            Ensures-bind (ItemsFit room (suc left)) (ItemsFit room (suc (suc left))) _ _
              (items-Fit vs limit room left) (λ rest k. omega arith)

    fields-Fit :
        (fs : Fields) (limit room left n : ℕ) (out : Fields)
        → FieldsFit room n out
        → Ensures (FieldsFit room (suc (n + left))) (summarise_fields o fs limit room left out)
    fields-Fit end limit room left n out h = omega arith
    fields-Fit (field k v fs) limit room zero n out h =
        let more =
          put_field-FieldsFit "..." (more_text (suc (fields_length fs))) room n out (omega arith)
            h in
        omega arith
    fields-Fit (field k v fs) limit room (suc left) n out h =
        Ensures-bind (λ _. Unit {0}) (FieldsFit room (suc (n + suc left))) (key_text o k) _
          (always (key_text o k))
          λ key _.
            Ensures-bind (Fits room) (FieldsFit room (suc (n + suc left))) _ _
              (value-Fits v limit room)
              λ item fit.
                Ensures-mono (FieldsFit room (suc (suc n + left)))
                  (FieldsFit room (suc (n + suc left))) _ (λ a g. omega arith)
                  (fields-Fit fs limit room left (suc n) (put_field key item out)
                    (put_field-FieldsFit key item room n out fit h))

-- Whatever the host passes, the result of `summarise` has at most three levels of containers, and
-- no container in it has more than 101 entries.
pub summarise-Fits : (o : Objects) (limit : ℕ) (v : Value) → Fits max_depth (summarise o limit v)
unfolding summarise depth width
summarise-Fits o limit v = elim (Option-cases (summarise_value o v limit max_depth)) [
  | inl raised ↦ rw (raised, summarise) (omega arith)
  | inr (out, e) ↦
      rw (e, summarise) (subst (Ensures (Fits max_depth)) e (value-Fits o v limit max_depth))
]
