-- ===== src/Base/Results.antt =====
-- A call that returns a value or raises an error, and what it returns, where it returns.
use mathlib.Core.Bool.{Bool, true, false}
use mathlib.Core.Option.{Option, none, some}
use mathlib.Core.Path.{◌≡◌, refl, ap, subst}

pub data Result {ℓ} (E : Type 0) (A : Type ℓ) : Type ℓ where
  ok : A → Result E A
  err : E → Result E A

-- `if condition: raise error`
abbrev pub raise_if : {E : Type 0} → Bool → E → Result E (Unit {0})
raise_if true e = err e
raise_if false e = ok tt

abbrev pub or_raise {ℓ} : {E : Type 0} {A : Type ℓ} → Option A → E → Result E A
or_raise none e = err e
or_raise (some a) e = ok a

abbrev pub is_ok {ℓ} : {E : Type 0} {A : Type ℓ} → Result E A → Bool
is_ok (ok a) = true
is_ok (err e) = false

-- An error ends the call.
infixl 5 ◌>>=◌ ◌>>◌
abbrev pub ◌>>=◌ {ℓ κ} :
    {E : Type 0} {A : Type ℓ} {B : Type κ} → Result E A → (A → Result E B) → Result E B
err error >>= next = err error
ok value >>= next = next value

abbrev pub ◌>>◌ {ℓ} : {E : Type 0} {B : Type ℓ} → Result E (Unit {0}) → Result E B → Result E B
check >> rest = check >>= λ _. rest

-- `P` holds of the value, where there is one.
abbrev pub Returns {ℓ κ} : {E : Type 0} {A : Type ℓ} → (A → Type κ) → Result E A → Type κ
Returns P (ok a) = P a
Returns P (err e) = Unit

pub Returns-bind {ℓ κ μ ν} :
    {E : Type 0} {A : Type ℓ} {B : Type κ} (Q : A → Type μ) (P : B → Type ν) (m : Result E A)
    (f : A → Result E B)
    → Returns Q m
    → ((a : A) → Q a → Returns P (f a))
    → Returns P (m >>= f)
Returns-bind Q P (ok a) f h k = k a h
Returns-bind Q P (err e) f h k = tt

pub Returns-intro {ℓ κ} :
    {E : Type 0} {A : Type ℓ} (P : A → Type κ) (m : Result E A) → ((a : A) → P a) → Returns P m
Returns-intro P (ok a) h = h a
Returns-intro P (err e) h = tt

pub Returns-map {ℓ κ μ} :
    {E : Type 0} {A : Type ℓ} (P : A → Type κ) (Q : A → Type μ) (m : Result E A)
    → ((a : A) → P a → Q a)
    → Returns P m
    → Returns Q m
Returns-map P Q (ok a) f h = f a h
Returns-map P Q (err e) f h = tt

pub Returns-then {ℓ κ} :
    {E : Type 0} {A : Type ℓ} (P : A → Type κ) (m : Result E (Unit {0})) (k : Result E A)
    → Returns P k
    → Returns P (m >> k)
Returns-then P (ok a) k h = h
Returns-then P (err e) k h = tt

pub Returns-after {ℓ κ μ} :
    {E : Type 0} {A : Type ℓ} {B : Type κ} (P : B → Type μ) (m : Result E A) (f : A → Result E B)
    → ((a : A) → Returns P (f a))
    → Returns P (m >>= f)
Returns-after P (ok a) f h = h a
Returns-after P (err e) f h = tt

-- The guard has let the call go on.
pub Returns-raise_if {ℓ κ} :
    {E : Type 0} {A : Type ℓ} (P : A → Type κ) (b : Bool) (e : E) (m : Result E A)
    → (b ≡ false → Returns P m)
    → Returns P (raise_if b e >> m)
Returns-raise_if P true e m h = tt
Returns-raise_if P false e m h = h refl

pub Returns-or_raise {ℓ κ μ} :
    {E : Type 0} {A : Type ℓ} {B : Type κ} (P : B → Type μ) (o : Option A) (e : E)
    (f : A → Result E B)
    → ((a : A) → o ≡ some a → Returns P (f a))
    → Returns P (or_raise o e >>= f)
Returns-or_raise P none e f h = tt
Returns-or_raise P (some a) e f h = h a refl

from_ok {ℓ} : {E : Type 0} {A : Type ℓ} → A → Result E A → A
from_ok b (ok a) = a
from_ok b (err e) = b

pub Returns-elim {ℓ κ} :
    {E : Type 0} {A : Type ℓ} (P : A → Type κ) (m : Result E A) {a : A}
    → Returns P m
    → m ≡ ok a
    → P a
unfolding from_ok
Returns-elim P (ok b) {a} h e = subst P (ap (from_ok b) e) h
Returns-elim P (err b) h e = absurd (cc e)
