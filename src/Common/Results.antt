-- ===== src/Common/Results.antt =====
-- Results of fallible code (`GatewayDomainError`, `new Error(…)`, a failed SQLite constraint), and
-- operations on a database, which keep what was written before an error unless they stand in a
-- `db.transaction(…)`.
use Prim.Native.Nat.{ℕ}
use Prim.Native.String.{String}
use mathlib.Core.Bool.{Bool, true, false}
use mathlib.Core.Logic.{◌⊎◌, inl, inr}
use mathlib.Core.Path.{◌≡◌, refl, subst, ap, ◌∙◌}
use native.Mathlib.Omega.{arith}
use mathlib.Core.Option.{Option, none, some}
use family_ai_platform.Common.Tests.{if◌then◌else◌}

pub data Category : Type 0 where
  validation permission availability timeout conflict internal : Category

pub data Failure : Type 0 where
  domain_error : String → ℕ → Category → Bool → Failure
  thrown : String → Failure
  constraint_failed : Failure

pub data Outcome {ℓ} (A : Type ℓ) : Type ℓ where
  ok : A → Outcome A
  err : Failure → Outcome A

abbrev pub is_ok {ℓ} : {A : Type ℓ} → Outcome A → Bool
is_ok (ok a) = true
is_ok (err e) = false

pub Outcome-cases {ℓ} :
    {A : Type ℓ} (o : Outcome A) → ((a : A) × (o ≡ ok a)) ⊎ ((e : Failure) × (o ≡ err e))
Outcome-cases (ok a) = inl (a, refl)
Outcome-cases (err e) = inr (e, refl)

-- The value of an outcome, or a value for an error.
abbrev pub ok_or {ℓ} : {A : Type ℓ} → A → Outcome A → A
ok_or d (ok a) = a
ok_or d (err e) = d

abbrev pub Op : Type 0 → Type 0 → Type 0
Op S A = S → Outcome A × S

-- `db.transaction(…)()`: an exception rolls the database back.
abbrev pub settle : {S A : Type 0} → S → Outcome A × S → Outcome A × S
settle s (ok a, s') = (ok a, s')
settle s (err e, s') = (err e, s)

module _ {S A : Type 0} where
  abbrev pub pure : A → Op S A
  pure a s = (ok a, s)

  abbrev pub fail : Failure → Op S A
  fail e s = (err e, s)

  abbrev pub gets : (S → A) → Op S A
  gets f s = (ok (f s), s)

  abbrev pub transaction : Op S A → Op S A
  transaction m s = settle s (m s)

-- A transaction that succeeds is its body.
pub settle_ok :
    {S A : Type 0} (s : S) (o : Outcome A × S)
    → is_ok (settle s o).0 ≡ true
    → (settle s o ≡ o) × (is_ok o.0 ≡ true)
settle_ok s (ok a, s') h = (refl, refl)
settle_ok s (err e, s') h = absurd (ground arith)

-- One that fails leaves the database as it was.
pub settle_err :
    {S A : Type 0} (s : S) (o : Outcome A × S) → is_ok (settle s o).0 ≡ false → (settle s o).1 ≡ s
settle_err s (ok a, s') h = absurd (ground arith)
settle_err s (err e, s') h = refl

-- `if (test) throw error`.
abbrev pub refuse_if : {S : Type 0} → Bool → Failure → Op S (Unit {0})
refuse_if b e s = (if b then err e else ok tt, s)

-- `if (!row) throw error`.
abbrev pub require : {S A : Type 0} → Option A → Failure → Op S A
require none e s = (err e, s)
require (some a) e s = (ok a, s)

abbrev pub modify : {S : Type 0} → (S → S) → Op S (Unit {0})
modify f s = (ok tt, f s)

infixl 5 ◌>>=◌ ◌>>◌
abbrev pub and_then : {S A B : Type 0} → Outcome A × S → (A → Op S B) → Outcome B × S
and_then (ok a, s) f = f a s
and_then (err e, s) f = (err e, s)

pub and_then_ok :
    {S A B : Type 0} (o : Outcome A × S) (f : A → Op S B)
    → is_ok (and_then o f).0 ≡ true
    → is_ok o.0 ≡ true
and_then_ok (ok a, s) f h = refl
and_then_ok (err e, s) f h = h

abbrev pub ◌>>=◌ : {S A B : Type 0} → Op S A → (A → Op S B) → Op S B
◌>>=◌ m f s = and_then (m s) f

abbrev pub ◌>>◌ : {S B : Type 0} → Op S (Unit {0}) → Op S B → Op S B
◌>>◌ m k s = and_then (m s) (λ u. k)

-- What every part of an operation keeps, the operation keeps.
module _ {S : Type 0} (P : S → Type 0) where
  pub record Keeps {A : Type 0} (o : Outcome A × S) : Type 0 where
    pub holds : P o.1

  pub kept : {A : Type 0} (o : Outcome A) (s : S) → P s → Keeps (o, s)
  kept o s h = record { holds = h }

  pub then-Keeps :
      {A B : Type 0} (m : Op S A) (f : A → Op S B) (s : S)
      → Keeps (m s)
      → ((a : A) (s : S) → P s → Keeps (f a s))
      → Keeps (and_then (m s) f)
  then-Keeps m f s k step = and_then_keeps (m s) f k.holds step
    where
      and_then_keeps :
          {A B : Type 0} (o : Outcome A × S) (f : A → Op S B)
          → P o.1
          → ((a : A) (s : S) → P s → Keeps (f a s))
          → Keeps (and_then o f)
      and_then_keeps (ok a, s) f h step = step a s h
      and_then_keeps (err e, s) f h step = record { holds = h }

  pub settle-Keeps : {A : Type 0} (s : S) (o : Outcome A × S) → P s → Keeps o → Keeps (settle s o)
  settle-Keeps s (ok a, s') h k = record { holds = k.holds }
  settle-Keeps s (err e, s') h k = record { holds = h }

  pub require-Keeps :
      {A : Type 0} (o : Option A) (e : Failure) (s : S) → P s → Keeps (require o e s)
  require-Keeps none e s h = record { holds = h }
  require-Keeps (some a) e s h = record { holds = h }

-- What holds of the value and of the database when an operation succeeds.
module _ {S : Type 0} where
  abbrev pub Given : {A : Type 0} → (A → S → Type 0) → Outcome A × S → Type 0
  Given Q (ok a, s) = Q a s
  Given Q (err e, s) = Unit {0}

  pub record Gives {A : Type 0} (Q : A → S → Type 0) (o : Outcome A × S) : Type 0 where
    pub given : Given Q o

  pub gives_of :
      {A : Type 0} {Q : A → S → Type 0} (o : Outcome A × S) (a : A) (s : S)
      → Gives Q o
      → o ≡ (ok a, s)
      → Q a s
  gives_of {A} {Q} o a s g e = subst (λ o. Given Q o) e g.given

  pub then-Gives :
      {A B : Type 0} {Q : B → S → Type 0} (R : A → S → Type 0) (m : Op S A) (f : A → Op S B) (s : S)
      → Gives R (m s)
      → ((a : A) (s : S) → R a s → Gives Q (f a s))
      → Gives Q (and_then (m s) f)
  then-Gives {A} {B} {Q} R m f s g step = and_then_gives (m s) f g.given step
    where
      and_then_gives :
          (o : Outcome A × S) (f : A → Op S B)
          → Given R o
          → ((a : A) (s : S) → R a s → Gives Q (f a s))
          → Gives Q (and_then o f)
      and_then_gives (ok a, s) f h step = step a s h
      and_then_gives (err e, s) f h step = record { given = tt }

  pub require-Gives :
      {A : Type 0} {R : A → S → Type 0} (o : Option A) (e : Failure) (s : S)
      → ((a : A) → o ≡ some a → R a s)
      → Gives R (require o e s)
  require-Gives none e s h = record { given = tt }
  require-Gives (some a) e s h = record { given = h a refl }

  pub refuse-Gives :
      {R : Unit {0} → S → Type 0} (b : Bool) (e : Failure) (s : S)
      → (b ≡ false → R tt s)
      → Gives R (refuse_if b e s)
  refuse-Gives true e s h = record { given = tt }
  refuse-Gives false e s h = record { given = h refl }

  pub settle-Gives :
      {A : Type 0} {Q : A → S → Type 0} (s : S) (o : Outcome A × S)
      → Gives Q o
      → Gives Q (settle s o)
  settle-Gives s (ok a, s') g = record { given = g.given }
  settle-Gives s (err e, s') g = record { given = tt }

  pub both-Gives :
      {A : Type 0} {Q R : A → S → Type 0} (o : Outcome A × S)
      → Gives Q o
      → Gives R o
      → Gives (λ a s. Q a s × R a s) o
  both-Gives (ok a, s) g h = record { given = (g.given, h.given) }
  both-Gives (err e, s) g h = record { given = tt }

  pub Keeps-Gives :
      {A : Type 0} (P : S → Type 0) (o : Outcome A × S) → Keeps P o → Gives (λ a s. P s) o
  Keeps-Gives P (ok a, s) k = record { given = k.holds }
  Keeps-Gives P (err e, s) k = record { given = tt }

  -- An operation that succeeds gives what it promises.
  pub ok_gives :
      {A : Type 0} {Q : A → S → Type 0} (o : Outcome A × S)
      → is_ok o.0 ≡ true
      → Gives Q o
      → (a : A) × (s : S) × (o ≡ (ok a, s)) × Q a s
  ok_gives (ok a, s) h g = (a, s, refl, g.given)
  ok_gives (err e, s) h g = absurd (ground arith)

  pub then_pure_ok :
      {A B : Type 0} (o : Outcome A × S) (b : B)
      → is_ok o.0 ≡ true
      → is_ok (and_then o (λ a. pure b)).0 ≡ true
  then_pure_ok (ok a, s) b h = refl
  then_pure_ok (err e, s) b h = h

  -- An operation whose first part is known to succeed goes on with the rest.
  pub then_goes_on :
      {A B : Type 0} {r : Outcome B × S} (m : Op S A) (f : A → Op S B) (s : S) {a : A} {s' : S}
      → m s ≡ (ok a, s')
      → f a s' ≡ r
      → and_then (m s) f ≡ r
  then_goes_on m f s e g = ap (λ o. and_then o f) e ∙ g

  -- A transaction keeps what its body gives when it succeeds.
  pub Gives-Keeps :
      {A : Type 0} (P : S → Type 0) (s : S) (o : Outcome A × S)
      → P s
      → Gives (λ a s. P s) o
      → Keeps P (settle s o)
  Gives-Keeps P s (ok a, s') h g = record { holds = g.given }
  Gives-Keeps P s (err e, s') h g = record { holds = h }
