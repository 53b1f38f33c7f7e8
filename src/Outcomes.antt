-- ===== src/Outcomes.antt =====
-- What holds of a call if it returns, for the outcomes of src/databfr.c and of what calls it.
use sdrproxy.Databfr.{Outcome, done, fault, failed, blocked, ◌>>=◌}

abbrev pub Ensures : {A : Type 0} → (A → Type 0) → Outcome A → Type 0
Ensures P (done a) = P a
Ensures P fault = Unit {0}
Ensures P failed = Unit {0}
Ensures P blocked = Unit {0}

pub Ensures-bind :
    {A B : Type 0} (P : A → Type 0) (Q : B → Type 0) (o : Outcome A) (f : A → Outcome B)
    → Ensures P o
    → ((a : A) → P a → Ensures Q (f a))
    → Ensures Q (o >>= f)
Ensures-bind P Q (done a) f h next = next a h
Ensures-bind P Q fault f h next = tt
Ensures-bind P Q failed f h next = tt
Ensures-bind P Q blocked f h next = tt

pub Ensures-any : {A : Type 0} (P : A → Type 0) (o : Outcome A) → ((a : A) → P a) → Ensures P o
Ensures-any P (done a) h = h a
Ensures-any P fault h = tt
Ensures-any P failed h = tt
Ensures-any P blocked h = tt

pub Ensures-weaker :
    {A : Type 0} (P Q : A → Type 0) (o : Outcome A)
    → ((a : A) → P a → Q a)
    → Ensures P o
    → Ensures Q o
Ensures-weaker P Q (done a) h p = h a p
Ensures-weaker P Q fault h p = tt
Ensures-weaker P Q failed h p = tt
Ensures-weaker P Q blocked h p = tt
