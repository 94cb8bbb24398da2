-- ===== src/Common/Exec.antt =====
-- Methods that change an object and may raise. What was written before a raise stays written, so
-- the state comes back beside the error too.
use mathlib.Core.Bool.{Bool, true, false}
use mathlib.Core.Path.{◌≡◌, refl}
use qbit_network.Common.Tests.{if◌then◌else◌}

pub data Result {ℓ κ} (E : Type ℓ) (A : Type κ) : Type (ℓ ⊔ κ) where
  ok : A → Result E A
  err : E → Result E A

-- `(True, "")`
abbrev pub accept {ℓ} : {E : Type ℓ} → Result E (Unit {0})
accept = ok tt

-- `if c: return False, r`
abbrev pub refuse_if {ℓ} : {E : Type ℓ} → Bool → E → Result E (Unit {0}) → Result E (Unit {0})
refuse_if true r k = err r
refuse_if false r k = k

-- A check that the caller goes past.
pub refuse_if_lem {ℓ} :
    {E : Type ℓ} (c : Bool) (r : E) (k : Result E (Unit {0}))
    → refuse_if c r k ≡ accept
    → (c ≡ false) × (k ≡ accept)
refuse_if_lem false r k h = (refl, h)
refuse_if_lem true r k h = cc

-- A check that does not refuse, before one that accepts.
pub refuse_if-false :
    {E : Type 0} (c : Bool) (r : E) (k : Result E (Unit {0}))
    → c ≡ false
    → k ≡ accept
    → refuse_if c r k ≡ accept
refuse_if-false false r k c h = h
refuse_if-false true r k c h = cc

-- A chain of checks accepts only if the rest of it does.
pub record Leads {E : Type 0} (m k : Result E (Unit {0})) : Type 0 where
  pub leads : m ≡ accept → k ≡ accept

pub Leads-same : {E : Type 0} (k : Result E (Unit {0})) → Leads k k
Leads-same k = record { leads = λ h. h }

pub Leads-if :
    {E : Type 0} (c : Bool) (r : E) (m k : Result E (Unit {0}))
    → Leads m k
    → Leads (refuse_if c r m) k
Leads-if c r m k h = record { leads = λ e. h.leads (refuse_if_lem c r m e).1 }

pub Leads-err : {E : Type 0} (r : E) (k : Result E (Unit {0})) → Leads (err r) k
Leads-err r k = record { leads = λ e. cc }

pub Leads-cond :
    {E : Type 0} (b : Bool) (m n k : Result E (Unit {0}))
    → Leads m k
    → Leads n k
    → Leads (if b then m else n) k
Leads-cond true m n k h g = h
Leads-cond false m n k h g = g

pub ruleset leads_rules = (Leads-same, Leads-if, Leads-err, Leads-cond)

abbrev pub Exec : Type 0 → Type 0 → Type 0 → Type 0
Exec E S A = S → Result E A × S

abbrev pub pure : {E S A : Type 0} → A → Exec E S A
pure a s = (ok a, s)

abbrev pub raise : {E S A : Type 0} → E → Exec E S A
raise e s = (err e, s)

abbrev pub gets : {E S A : Type 0} → (S → A) → Exec E S A
gets f s = (ok (f s), s)

abbrev pub modify : {E S : Type 0} → (S → S) → Exec E S (Unit {0})
modify f s = (ok tt, f s)

-- `if c: raise e`
abbrev pub raise_if : {E S : Type 0} → Bool → E → Exec E S (Unit {0})
raise_if c e s = ((if c then err e else ok tt), s)

infixl 5 ◌>>=◌ ◌>>◌
abbrev pub ◌>>=◌ : {E S A B : Type 0} → Exec E S A → (A → Exec E S B) → Exec E S B
◌>>=◌ m f s = let (r, s') = m s in elim r [ ok a ↦ f a s' | err e ↦ raise e s' ]

abbrev pub ◌>>◌ : {E S B : Type 0} → Exec E S (Unit {0}) → Exec E S B → Exec E S B
m >> k = m >>= λ _. k

-- What a call that began at `s` has done, by how it ended.
abbrev pub Outcome :
    {E S A : Type 0} → (A → S → Type 0) → (E → S → Type 0) → Result E A × S → Type 0
Outcome P Q (ok a, s) = P a s
Outcome P Q (err e, s) = Q e s

-- A call whose error case is impossible has returned, with what its success case says.
pub Outcome-ok :
    {E S A : Type 0} (P : A → S → Type 0) (Q : E → S → Type 0) (r : Result E A × S)
    → Outcome P Q r
    → ((e : E) (s : S) → Q e s → ⊥)
    → (a : A) × (r.0 ≡ ok a) × P a r.1
Outcome-ok P Q (ok a, s) o never = (a, refl, o)
Outcome-ok P Q (err e, s) o never = absurd (never e s o)

-- A step that returned hands its value and its state to the rest.
pub bind_ok :
    {E S A B : Type 0} (m : Exec E S A) (f : A → Exec E S B) (s : S) (a : A)
    → (m s).0 ≡ ok a
    → (m >>= f) s ≡ f a (m s).1
bind_ok m f s a e = rw (e, ◌>>=◌)

Outcome-step :
    {E S A B : Type 0} (P : A → S → Type 0) (R : B → S → Type 0) (Q : E → S → Type 0)
    (f : A → Exec E S B) (r : Result E A × S)
    → Outcome P Q r
    → ((a : A) (s' : S) → P a s' → Outcome R Q (f a s'))
    → Outcome R Q (let (r', s') = r in elim r' [ ok a ↦ f a s' | err e ↦ raise e s' ])
Outcome-step P R Q f (ok a, s) first rest = rest a s first
Outcome-step P R Q f (err e, s) first rest = first

-- The rule for a sequence: the rest starts from what the first step guarantees, and an error of
-- the first step is one of the whole.
pub Outcome-bind :
    {E S A B : Type 0} (P : A → S → Type 0) (R : B → S → Type 0) (Q : E → S → Type 0)
    (m : Exec E S A) (f : A → Exec E S B) (s : S)
    → Outcome P Q (m s)
    → ((a : A) (s' : S) → P a s' → Outcome R Q (f a s'))
    → Outcome R Q ((m >>= f) s)
Outcome-bind P R Q m f s first rest = Outcome-step P R Q f (m s) first rest

pub Outcome-imp :
    {E S A : Type 0} (P R : A → S → Type 0) (Q : E → S → Type 0) (r : Result E A × S)
    → Outcome P Q r
    → ((a : A) (s : S) → P a s → R a s)
    → Outcome R Q r
Outcome-imp P R Q (ok a, s) o f = f a s o
Outcome-imp P R Q (err e, s) o f = o

-- The branch that a test takes.
pub Outcome-if_true :
    {E S A : Type 0} (P : A → S → Type 0) (Q : E → S → Type 0) (b : Bool) (r t : Result E A × S)
    → b ≡ true
    → Outcome P Q r
    → Outcome P Q (if b then r else t)
Outcome-if_true P Q true r t h o = o
Outcome-if_true P Q false r t h o = cc

-- The same, with no claim on errors.
pub Outcome-weaken :
    {E S A : Type 0} (P R : A → S → Type 0) (Q : E → S → Type 0) (r : Result E A × S)
    → Outcome P Q r
    → ((a : A) (s : S) → P a s → R a s)
    → Outcome R (λ e s. Unit {0}) r
Outcome-weaken P R Q (ok a, s) o f = f a s o
Outcome-weaken P R Q (err e, s) o f = tt

-- Two claims on the same call.
pub Outcome-both :
    {E S A : Type 0} (P R : A → S → Type 0) (r : Result E A × S)
    → Outcome P (λ e s. Unit {0}) r
    → Outcome R (λ e s. Unit {0}) r
    → Outcome (λ a s. P a s × R a s) (λ e s. Unit {0}) r
Outcome-both P R (ok a, s) o p = (o, p)
Outcome-both P R (err e, s) o p = tt
