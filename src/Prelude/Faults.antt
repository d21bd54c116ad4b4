-- ===== src/Prelude/Faults.antt =====
-- How a call can end. `SYLAR_ASSERT` (sylar/base/debug.h) logs and then calls `assert`, which stops
-- the process; a `throw` ends the call with an exception; a use of a null pointer or of a past-the-end
-- iterator has no defined result; and the thread ends when a context without a successor returns.
use mathlib.Core.Path.{◌≡◌, refl}
use mathlib.Core.Bool.{Bool, true, false}
use mathlib.Core.Option.{Option, none, some}

pub data Fault : Type 0 where
  assertion undefined thrown thread_ended : Fault

pub data Outcome {ℓ} (A : Type ℓ) : Type ℓ where
  ok : A → Outcome A
  fault : Fault → Outcome A

infixl 5 ◌>>=◌ ◌>>◌
abbrev pub ◌>>=◌ {ℓ κ} : {A : Type ℓ} {B : Type κ} → Outcome A → (A → Outcome B) → Outcome B
ok a >>= f = f a
fault e >>= f = fault e

abbrev pub ◌>>◌ {ℓ} : {B : Type ℓ} → Outcome (Unit {0}) → Outcome B → Outcome B
m >> k = m >>= λ _. k

-- A chain that returns has a first part that returns.
pub >>=-eq-ok {κ μ} :
    {P : Type κ} {Q : Type μ} (first : Outcome P) (next : P → Outcome Q) {q : Q}
    → (first >>= next) ≡ ok q
    → (p : P) × (first ≡ ok p) × (next p ≡ ok q)
>>=-eq-ok (ok p) next returned = (p, refl, returned)
>>=-eq-ok (fault kind) next returned = cc

-- `SYLAR_ASSERT(b)`.
abbrev pub check : Bool → Outcome (Unit {0})
check true = ok tt
check false = fault assertion

-- A use of a pointer to no object is undefined.
abbrev pub get {ℓ} : {A : Type ℓ} → Option A → Outcome A
get none = fault undefined
get (some a) = ok a

pub get-eq-ok {ℓ} : {A : Type ℓ} (o : Option A) {a : A} → get o ≡ ok a → o ≡ some a
get-eq-ok none h = cc
get-eq-ok (some a) h = cc

pub some-injective {ℓ} : {A : Type ℓ} {a b : A} → some a ≡ some b → a ≡ b
some-injective h = cc

pub ok-injective {ℓ} : {A : Type ℓ} {a b : A} → ok a ≡ ok b → a ≡ b
ok-injective h = cc

-- A call on fuel: `none` when the fuel runs out.
abbrev pub Run {ℓ} : Type ℓ → Type ℓ
Run A = Option (Outcome A)

infixl 5 ◌>=>◌
abbrev pub ◌>=>◌ {ℓ κ} : {A : Type ℓ} {B : Type κ} → Run A → (A → Run B) → Run B
none >=> f = none
some (ok a) >=> f = f a
some (fault e) >=> f = some (fault e)

pub >=>-eq-ok {κ μ} :
    {P : Type κ} {Q : Type μ} (first : Run P) (next : P → Run Q) {q : Q}
    → (first >=> next) ≡ some (ok q)
    → (p : P) × (first ≡ some (ok p)) × (next p ≡ some (ok q))
>=>-eq-ok none next h = cc
>=>-eq-ok (some (ok p)) next h = (p, refl, h)
>=>-eq-ok (some (fault kind)) next h = cc

-- A handler of exceptions that gives a value in their place; other faults stop the process.
abbrev pub catch {ℓ} : {A : Type ℓ} → A → Outcome A → Outcome A
catch a (ok b) = ok b
catch a (fault thrown) = ok a
catch a (fault assertion) = fault assertion
catch a (fault undefined) = fault undefined
catch a (fault thread_ended) = fault thread_ended
