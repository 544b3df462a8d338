-- ===== src/Prelude/Outcome.antt =====
-- The outcome of a run: a value, or a fault. A fault stands for a failed `assert`, and for an
-- access outside the object that a pointer points into, which C leaves undefined.
use mathlib.Core.Path.{◌≡◌}
use mathlib.Core.Bool.{Bool, true, false}
use cstructures.Prelude.Tests.{if◌then◌else◌}

pub data Exec {ℓ} (A : Type ℓ) : Type ℓ where
  done : A → Exec A
  fault : Exec A

infixl 5 ◌>>=◌
abbrev pub ◌>>=◌ {ℓ κ} : {A : Type ℓ} {B : Type κ} → Exec A → (A → Exec B) → Exec B
done a >>= f = f a
fault >>= f = fault

-- The run ends in a value that satisfies `P`; a fault satisfies nothing.
abbrev pub Returns {ℓ} : {A : Type ℓ} → Exec A → (A → Type 0) → Type 0
Returns (done a) P = P a
Returns fault P = ⊥

pub Returns->>= {ℓ κ} :
    {A : Type ℓ} {B : Type κ} (m : Exec A) (f : A → Exec B) (P : A → Type 0) (Q : B → Type 0)
    → Returns m P
    → ((a : A) → P a → Returns (f a) Q)
    → Returns (m >>= f) Q
Returns->>= (done a) f P Q h k = k a h
Returns->>= fault f P Q h k = h

pub Returns_mono {ℓ} :
    {A : Type ℓ} (m : Exec A) (P Q : A → Type 0) → Returns m P → ((a : A) → P a → Q a) → Returns m Q
Returns_mono (done a) P Q h k = k a h
Returns_mono fault P Q h k = h

-- The branch that is taken.
pub Returns-else {ℓ} :
    {A : Type ℓ} (b : Bool) (m n : Exec A) (P : A → Type 0)
    → b ≡ false
    → Returns n P
    → Returns (if b then m else n) P
Returns-else true m n P e h = cc
Returns-else false m n P e h = h

pub Returns-then {ℓ} :
    {A : Type ℓ} (b : Bool) (m n : Exec A) (P : A → Type 0)
    → b ≡ true
    → Returns m P
    → Returns (if b then m else n) P
Returns-then true m n P e h = h
Returns-then false m n P e h = cc

-- The value of a run that ends in one.
abbrev pub result_or {ℓ} : {A : Type ℓ} → Exec A → A → A
result_or (done a) d = a
result_or fault d = d

pub result_or-Returns {ℓ} :
    {A : Type ℓ} (m : Exec A) (d : A) (P : A → Type 0) → Returns m P → P (result_or m d)
result_or-Returns (done a) d P h = h
result_or-Returns fault d P h = absurd h

-- What holds of the value, if the run ends in one.
abbrev pub Always {ℓ} : {A : Type ℓ} → Exec A → (A → Type 0) → Type 0
Always (done a) P = P a
Always fault P = Unit

pub Always->>= {ℓ κ} :
    {A : Type ℓ} {B : Type κ} (m : Exec A) (f : A → Exec B) (P : A → Type 0) (Q : B → Type 0)
    → Always m P
    → ((a : A) → P a → Always (f a) Q)
    → Always (m >>= f) Q
Always->>= (done a) f P Q h k = k a h
Always->>= fault f P Q h k = tt

pub Returns_and {ℓ} :
    {A : Type ℓ} (m : Exec A) (P Q : A → Type 0)
    → Returns m P
    → Always m Q
    → Returns m (λ a. P a × Q a)
Returns_and (done a) P Q h k = (h, k)
Returns_and fault P Q h k = h

pub Always_any {ℓ} : {A : Type ℓ} (m : Exec A) → Always m (λ a. Unit)
Always_any (done a) = tt
Always_any fault = tt
