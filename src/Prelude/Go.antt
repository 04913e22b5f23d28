-- ===== src/Prelude/Go.antt =====
-- What a Go function returns: `Ret` is a value or a panic (a nil dereference), and `Result` is the
-- pair (value, error) of Go, read as one or the other.
use Prim.Native.String.{String}
use mathlib.Core.Path.{◌≡◌, refl}
use mathlib.Core.Logic.{◌⊎◌, inl, inr}
use mathlib.Core.Option.{Option, none, some}

pub data Result {ℓ} (A : Type ℓ) : Type ℓ where
  ok : A → Result A
  err : String → Result A

pub data Ret {ℓ} (A : Type ℓ) : Type ℓ where
  ret : A → Ret A
  panic : Ret A

infixl 5 ◌>>=◌
abbrev pub ◌>>=◌ {ℓ κ} : {A : Type ℓ} {B : Type κ} → Ret A → (A → Ret B) → Ret B
ret a >>= f = f a
panic >>= f = panic

-- `*p`
abbrev pub deref {ℓ} : {A : Type ℓ} → Option A → Ret A
deref none = panic
deref (some a) = ret a

-- Inversion of a bind that returned.
pub >>=-eq-ret {ℓ κ} :
    {A : Type ℓ} {B : Type κ} (m : Ret A) (f : A → Ret B) {b : B}
    → (m >>= f) ≡ ret b
    → (a : A) × (m ≡ ret a) × (f a ≡ ret b)
>>=-eq-ret (ret a) f e = (a, refl, e)
>>=-eq-ret panic f e = cc

pub deref-eq-ret {ℓ} : {A : Type ℓ} (o : Option A) {a : A} → deref o ≡ ret a → o ≡ some a
deref-eq-ret none e = cc
deref-eq-ret (some a) e = cc

pub Result-cases {ℓ} :
    {A : Type ℓ} (r : Result A) → ((a : A) × (r ≡ ok a)) ⊎ ((e : String) × (r ≡ err e))
Result-cases (ok a) = inl (a, refl)
Result-cases (err e) = inr (e, refl)

pub Ret-cases {ℓ} : {A : Type ℓ} (r : Ret A) → ((a : A) × (r ≡ ret a)) ⊎ (r ≡ panic)
Ret-cases (ret a) = inl (a, refl)
Ret-cases panic = inr refl

pub ret-injective {ℓ} : {A : Type ℓ} {a b : A} → ret a ≡ ret b → a ≡ b
ret-injective e = cc
