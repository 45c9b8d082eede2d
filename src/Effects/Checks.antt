-- ===== src/Effects/Checks.antt =====
-- Checks that give a value or raise, without a state.
use matching_machine.Effects.{Result, ok, raise}

-- A predicate of what a check gives, if it gives anything.
abbrev pub Holds : {E A : Type 0} → (A → Type 0) → Result E A → Type 0
Holds P (ok a) = P a
Holds P (raise e) = Unit

pub Holds-imp :
    {E A : Type 0} (P Q : A → Type 0) (r : Result E A)
    → ((a : A) → P a → Q a)
    → Holds P r
    → Holds Q r
Holds-imp P Q (ok a) f h = f a h
Holds-imp P Q (raise x) f h = tt

pub Holds-bind :
    {E A B : Type 0} (P : A → Type 0) (Q : B → Type 0) (r : Result E A) (f : A → Result E B)
    → Holds P r
    → ((a : A) → P a → Holds Q (f a))
    → Holds Q (elim r [ raise e ↦ raise e | ok a ↦ f a ])
Holds-bind P Q (ok a) f h g = g a h
Holds-bind P Q (raise x) f h g = tt

pub Holds-any : {E A : Type 0} (r : Result E A) → Holds (λ _. Unit {0}) r
Holds-any (ok a) = tt
Holds-any (raise e) = tt
