-- ===== src/Prelude/Outcome.antt =====
-- Code that may end the process.
use mathlib.Core.Path.{◌≡◌, refl, subst}
use mathlib.Core.Logic.{◌⊎◌, inl, inr}
use mathlib.Core.Bool.{Bool, true, false}
use mathlib.Core.Option.{Option, none, some}
use yfs_lab.Prelude.Tests.{if◌then◌else◌}

-- A failed assert, a NULL dereference, an exception of `at`, a write behind the end of an
-- allocation, a use of a deleted object, and a call of exit.
pub data Fault : Type 0 where
  assertion null_pointer out_of_range overrun use_after_delete exits : Fault

pub data Outcome {ℓ} (A : Type ℓ) : Type ℓ where
  returns : A → Outcome A
  aborts : Fault → Outcome A

infixl 5 ◌>>=◌
abbrev pub ◌>>=◌ {ℓ κ} : {A : Type ℓ} {B : Type κ} → Outcome A → (A → Outcome B) → Outcome B
returns a >>= f = f a
aborts e >>= f = aborts e

-- A chain that returned, returned in each of its parts.
pub then-returns :
    {A B : Type 0} (o : Outcome A) (f : A → Outcome B) (b : B)
    → (o >>= f) ≡ returns b
    → (a : A) × (o ≡ returns a) × (f a ≡ returns b)
then-returns (returns a) f b e = (a, refl, e)
then-returns (aborts x) f b e = absurd (cc e)

pub if-returns :
    {A : Type 0} (b : Bool) (x y : Outcome A) (a : A)
    → (if b then x else y) ≡ returns a
    → (x ≡ returns a) ⊎ (y ≡ returns a)
if-returns true x y a e = inl e
if-returns false x y a e = inr e

-- What holds of the result, where there is one.
abbrev pub OnReturn {ℓ κ} : {A : Type ℓ} → (A → Type κ) → Outcome A → Type κ
OnReturn P (returns a) = P a
OnReturn P (aborts x) = Unit {κ}

pub on-if {ℓ κ} :
    {A : Type ℓ} (P : A → Type κ) (b : Bool) (x y : Outcome A)
    → OnReturn P x
    → OnReturn P y
    → OnReturn P (if b then x else y)
on-if P true x y p q = p
on-if P false x y p q = q

pub on-then {ℓ κ μ ν} :
    {A : Type ℓ} {B : Type κ} (P : A → Type μ) (Q : B → Type ν) (o : Outcome A) (f : A → Outcome B)
    → OnReturn P o
    → ((a : A) → P a → OnReturn Q (f a))
    → OnReturn Q (o >>= f)
on-then P Q (returns a) f p g = g a p
on-then P Q (aborts x) f p g = tt

pub on-returns {ℓ κ} :
    {A : Type ℓ} (P : A → Type κ) (o : Outcome A) (a : A) → OnReturn P o → o ≡ returns a → P a
on-returns P o a p e = subst (OnReturn P) e p

pub on-option {ℓ κ μ} :
    {A : Type ℓ} {B : Type κ} (P : A → Type μ) (o : Option B) (x : Outcome A) (f : B → Outcome A)
    → OnReturn P x
    → ((b : B) → OnReturn P (f b))
    → OnReturn P (elim o [ none ↦ x | some b ↦ f b ])
on-option P none x f p q = p
on-option P (some b) x f p q = q b

pub on-weaken {ℓ κ μ} :
    {A : Type ℓ} (P : A → Type κ) (Q : A → Type μ) (o : Outcome A)
    → OnReturn P o
    → ((a : A) → P a → Q a)
    → OnReturn Q o
on-weaken P Q (returns a) p f = f a p
on-weaken P Q (aborts x) p f = tt

-- It returns, and what it returns has a property.
abbrev pub WillReturn {ℓ} : {A : Type ℓ} → (A → Type 0) → Outcome A → Type 0
WillReturn P (returns a) = P a
WillReturn P (aborts x) = ⊥

pub will-then {ℓ κ} :
    {A : Type ℓ} {B : Type κ} (P : A → Type 0) (Q : B → Type 0) (o : Outcome A) (f : A → Outcome B)
    → WillReturn P o
    → ((a : A) → P a → WillReturn Q (f a))
    → WillReturn Q (o >>= f)
will-then P Q (returns a) f p g = g a p
will-then P Q (aborts x) f p g = absurd p

pub will-returns {ℓ} :
    {A : Type ℓ} (P : A → Type 0) (o : Outcome A) → WillReturn P o → (a : A) × (o ≡ returns a) × P a
will-returns P (returns a) p = (a, refl, p)
will-returns P (aborts x) p = absurd p

pub will-weaken {ℓ} :
    {A : Type ℓ} (P Q : A → Type 0) (o : Outcome A)
    → WillReturn P o
    → ((a : A) → P a → Q a)
    → WillReturn Q o
will-weaken P Q (returns a) p f = f a p
will-weaken P Q (aborts x) p f = absurd p

pub will-on {ℓ} :
    {A : Type ℓ} (P Q : A → Type 0) (o : Outcome A)
    → WillReturn P o
    → OnReturn Q o
    → WillReturn (λ a. P a × Q a) o
will-on P Q (returns a) p q = (p, q)
will-on P Q (aborts x) p q = absurd p

pub returns_inj {ℓ} : {A : Type ℓ} {a b : A} → returns a ≡ returns b → a ≡ b
returns_inj {a = a} e = subst (OnReturn (λ x. a ≡ x)) e refl

pub on-each {ℓ κ μ} :
    {A : Type ℓ} {B : Type κ} (Q : B → Type μ) (o : Outcome A) (f : A → Outcome B)
    → ((a : A) → OnReturn Q (f a))
    → OnReturn Q (o >>= f)
on-each Q (returns a) f g = g a
on-each Q (aborts x) f g = tt

pub on-and {ℓ κ μ} :
    {A : Type ℓ} (P : A → Type κ) (Q : A → Type μ) (o : Outcome A)
    → OnReturn P o
    → OnReturn Q o
    → OnReturn (λ a. P a × Q a) o
on-and P Q (returns a) p q = (p, q)
on-and P Q (aborts x) p q = tt
