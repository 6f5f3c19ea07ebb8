-- ===== src/Raising/Keeps.antt =====
-- What code that may raise keeps of its state, by its shape: a relation from the state before to the
-- state after, whether the code returned or raised.
use llm_metrics.Prelude.{
  Bool, true, false, Option, none, some, List, [], ◌∷◌, if◌then◌else◌, ◌≡◌, refl,
}
use llm_metrics.Raising.{Raising, ◌>>=◌, ◌>>◌, for_each, give, modify, evaluate}

pub record Order (S : Type 0) : Type 1 where
  pub Later : S → S → Type 0
  pub refl : (s : S) → Later s s
  pub trans : (s s' s'' : S) → Later s s' → Later s' s'' → Later s s''

module _ {S : Type 0} (r : Order S) where
  open r use {Later}

  abbrev pub Keeps : {A : Type 0} → Raising S A → Type 0
  Keeps m = (s : S) → Later s (m s).1

  bind_step :
      {A B : Type 0} (s : S) (o : Option A) (s' : S) (f : A → Raising S B)
      → Later s s'
      → ((a : A) → Keeps (f a))
      → Later s (elim o as (λ _. Option B × S) [ none ↦ (none, s') | some a ↦ f a s' ]).1
  bind_step s none s' f h rest = h
  bind_step s (some a) s' f h rest = r.trans s s' (f a s').1 h (rest a s')

  pub >>=-Keeps :
      {A B : Type 0} (m : Raising S A) (f : A → Raising S B)
      → Keeps m
      → ((a : A) → Keeps (f a))
      → Keeps (m >>= f)
  unfolding ◌>>=◌
  >>=-Keeps m f keeps rest s = bind_step s (m s).0 (m s).1 f (keeps s) rest

  pub >>-Keeps :
      {B : Type 0} (m : Raising S (Unit {0})) (k : Raising S B) → Keeps m → Keeps k → Keeps (m >> k)
  unfolding ◌>>◌
  >>-Keeps m k keeps rest = >>=-Keeps m (λ _. k) keeps (λ _. rest)

  pub modify-Keeps : (f : S → S) → ((s : S) → Later s (f s)) → Keeps (modify f)
  unfolding modify
  modify-Keeps f h = h

  pub evaluate-Keeps : {A : Type 0} (o : Option A) → Keeps (evaluate o)
  unfolding evaluate
  evaluate-Keeps o s = r.refl s

  pub give-Keeps : {A : Type 0} (a : A) → Keeps (give a)
  unfolding give
  give-Keeps a s = r.refl s

  pub if-Keeps :
      {A : Type 0} (b : Bool) (m k : Raising S A) → Keeps m → Keeps k → Keeps (if b then m else k)
  if-Keeps true m k hm hk = hm
  if-Keeps false m k hm hk = hk

  pub for_each-Keeps :
      {A : Type 0} (f : A → Raising S (Unit {0}))
      → ((a : A) → Keeps (f a))
      → (xs : List A) → Keeps (for_each f xs)
  unfolding for_each
  for_each-Keeps f keeps [] = give-Keeps tt
  for_each-Keeps f keeps (x ∷ xs) =
      >>-Keeps (f x) (for_each f xs) (keeps x) (for_each-Keeps f keeps xs)

  pub if-Keeps_cases :
      {A : Type 0} (b : Bool) (m k : Raising S A)
      → (b ≡ true → Keeps m)
      → (b ≡ false → Keeps k)
      → Keeps (if b then m else k)
  if-Keeps_cases true m k hm hk = hm refl
  if-Keeps_cases false m k hm hk = hk refl
