-- ===== src/Base/Run.antt =====
-- What a part of a program does: it returns, ends the process by `exit`, does what C leaves undefined,
-- or (only in the model) runs out of the fuel of a loop.
use mathlib.Core.Path.{◌≡◌, refl, ap, sym}
use mathlib.Core.Bool.{Bool, true, false}
use mathlib.Core.Option.{Option, none, some}

-- EXIT_SUCCESS and EXIT_FAILURE.
pub data ExitCode : Type 0 where
  success failure : ExitCode

pub data Run {ℓ} (A : Type ℓ) : Type ℓ where
  returns : A → Run A
  exits : ExitCode → Run A
  undefined : Run A
  unfinished : Run A

infixl 5 ◌>>=◌ ◌>>◌
abbrev pub ◌>>=◌ {ℓ κ} : {A : Type ℓ} {B : Type κ} → Run A → (A → Run B) → Run B
returns a >>= f = f a
exits c >>= f = exits c
undefined >>= f = undefined
unfinished >>= f = unfinished

abbrev pub ◌>>◌ {ℓ} : {B : Type ℓ} → Run (Unit {0}) → Run B → Run B
m >> k = m >>= λ _. k

-- A check that ends the process with EXIT_FAILURE when it fails.
abbrev pub require : Bool → Run (Unit {0})
require true = returns tt
require false = exits failure

-- An access to an array: behind its end, what C leaves undefined.
abbrev pub in_bounds : Bool → Run (Unit {0})
in_bounds true = returns tt
in_bounds false = undefined

-- A call that fails ends the process with EXIT_FAILURE.
abbrev pub or_exit {ℓ} : {A : Type ℓ} → Option A → Run A
or_exit (some a) = returns a
or_exit none = exits failure

-- The result of a loop on fuel.
abbrev pub with_fuel {ℓ} : {A : Type ℓ} → Option A → Run A
with_fuel (some a) = returns a
with_fuel none = unfinished

-- A sequence that returns: each part did.
pub >>=-eq-returns {ℓ κ} :
    {A : Type ℓ} {B : Type κ} (m : Run A) (f : A → Run B) {b : B}
    → (m >>= f) ≡ returns b
    → (a : A) × (m ≡ returns a) × (f a ≡ returns b)
>>=-eq-returns (returns a) f h = (a, refl, h)
>>=-eq-returns (exits c) f h = cc
>>=-eq-returns undefined f h = cc
>>=-eq-returns unfinished f h = cc

pub returns-injective {ℓ} : {A : Type ℓ} {a b : A} → returns a ≡ returns b → b ≡ a
returns-injective h = cc

-- It returns or exits: no loop lacks fuel, and nothing undefined is done.
abbrev pub Finishes {ℓ} : {A : Type ℓ} → Run A → Type 0
Finishes (returns t) = Unit
Finishes (exits c) = Unit
Finishes _ = ⊥

pub Finishes-then {ℓ κ} :
    {A : Type ℓ} {B : Type κ} (m : Run A) (f : A → Run B)
    → Finishes m
    → ((t : A) → m ≡ returns t → Finishes (f t))
    → Finishes (m >>= f)
Finishes-then (returns t) f h k = k t refl
Finishes-then (exits c) f h k = tt
Finishes-then undefined f h k = absurd h
Finishes-then unfinished f h k = absurd h

pub require-Finishes {ℓ} :
    {A : Type ℓ} (b : Bool) (m : Run A) → Finishes m → Finishes (require b >> m)
require-Finishes true m h = h
require-Finishes false m h = tt

pub or_exit-Finishes {ℓ} : {A : Type ℓ} (o : Option A) → Finishes (or_exit o)
or_exit-Finishes (some a) = tt
or_exit-Finishes none = tt

-- What follows a check that is passed.
pub require-eq-returns {ℓ} :
    {A : Type ℓ} (b : Bool) (m : Run A) {a : A}
    → (require b >> m) ≡ returns a
    → (b ≡ true) × (m ≡ returns a)
require-eq-returns true m e = (refl, e)
require-eq-returns false m e = absurd (cc e)

pub or_exit-eq-returns {ℓ} :
    {A : Type ℓ} (o : Option A) {a : A} → or_exit o ≡ returns a → o ≡ some a
or_exit-eq-returns (some b) e = ap some (sym (returns-injective e))
or_exit-eq-returns none e = absurd (cc e)

-- What follows an access, when it returns; and one within the array.
pub in_bounds-eq-returns {ℓ} :
    {A : Type ℓ} (b : Bool) (m : Run A) {a : A} → (in_bounds b >> m) ≡ returns a → m ≡ returns a
in_bounds-eq-returns true m e = e
in_bounds-eq-returns false m e = absurd (cc e)

pub in_bounds-Finishes {ℓ} :
    {A : Type ℓ} (b : Bool) (m : Run A) → b ≡ true → Finishes m → Finishes (in_bounds b >> m)
in_bounds-Finishes true m e h = h
in_bounds-Finishes false m e h = absurd (cc e)
