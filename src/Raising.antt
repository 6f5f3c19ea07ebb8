-- ===== src/Raising.antt =====
-- Code that changes a state `S` as it goes and may raise: what was changed before stays changed.
pub mod Keeps
use llm_metrics.Prelude.{Option, none, some, List, [], ◌∷◌}

abbrev pub Raising : Type 0 → Type 0 → Type 0
Raising S A = S → Option A × S

infixl 5 ◌>>=◌ ◌>>◌
unfoldable pub ◌>>=◌ : {S A B : Type 0} → Raising S A → (A → Raising S B) → Raising S B
◌>>=◌ m f s = let (r, s') = m s in elim r [ none ↦ (none, s') | some a ↦ f a s' ]

unfoldable pub ◌>>◌ : {S B : Type 0} → Raising S (Unit {0}) → Raising S B → Raising S B
unfolding ◌>>=◌
m >> k = m >>= λ _. k

unfoldable pub give : {S A : Type 0} → A → Raising S A
give a s = (some a, s)

unfoldable pub modify : {S : Type 0} → (S → S) → Raising S (Unit {0})
modify f s = (some tt, f s)

-- an expression that may raise
unfoldable pub evaluate : {S A : Type 0} → Option A → Raising S A
evaluate o s = (o, s)

-- `for x in xs`
unfoldable pub for_each :
    {S A : Type 0} → (A → Raising S (Unit {0})) → List A → Raising S (Unit {0})
for_each f [] = give tt
for_each f (x ∷ xs) = f x >> for_each f xs
