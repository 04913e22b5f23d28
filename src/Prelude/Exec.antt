-- ===== src/Prelude/Exec.antt =====
-- Code with effects: a function of the state that returns or panics, with the state that it leaves.
-- A call that may fail returns a `Result`, which the caller tests as Go tests `err != nil`.
use mathlib.Core.Path.{◌≡◌, refl}
use mathlib.Core.Option.{Option, none, some}
use agents_kong.Prelude.Go.{Result, Ret, ret, panic, deref}

-- A call of code outside the repository: it fails or succeeds, and it does not panic.
abbrev pub Call {ℓ} : Type ℓ → Type ℓ → Type ℓ
Call S A = S → Result A × S

abbrev pub Exec {ℓ} : Type ℓ → Type ℓ → Type ℓ
Exec S A = S → Ret A × S

module _ {ℓ} {S A : Type ℓ} where
  abbrev pub pure : A → Exec S A
  pure a s = (ret a, s)

  abbrev pub lift : Ret A → Exec S A
  lift r s = (r, s)

  abbrev pub call : Call S A → Exec S (Result A)
  call c s = (ret (c s).0, (c s).1)

  -- `*p`
  abbrev pub load : Option A → Exec S A
  load p s = (deref p, s)

module _ {ℓ} {S A B : Type ℓ} where
  abbrev pub continue : Ret A × S → (A → Exec S B) → Ret B × S
  continue (ret a, s) f = f a s
  continue (panic, s) f = (panic, s)

  infixl 5 ◌>>=◌
  abbrev pub ◌>>=◌ : Exec S A → (A → Exec S B) → Exec S B
  ◌>>=◌ m f s = continue (m s) f

  -- Inversion of a bind that returned.
  pub continue-eq-ret :
      (out : Ret A × S) (f : A → Exec S B) {b : B} {s' : S}
      → continue out f ≡ (ret b, s')
      → (a : A) × (t : S) × (out ≡ (ret a, t)) × (f a t ≡ (ret b, s'))
  continue-eq-ret (ret a, s) f e = (a, s, refl, e)
  continue-eq-ret (panic, s) f e = cc

  -- A bind keeps the state if its second part does.
  pub continue_keeps :
      (r : Ret A) (s : S) (f : A → Exec S B) → ((a : A) → (f a s).1 ≡ s) → (continue (r, s) f).1 ≡ s
  continue_keeps (ret a) s f h = h a
  continue_keeps panic s f h = refl

  -- The same for a bind on a pointer, which leaves the state alone.
  pub load-eq-ret :
      (p : Option A) (s : S) (f : A → Exec S B) {b : B} {s' : S}
      → continue (deref p, s) f ≡ (ret b, s')
      → (a : A) × (p ≡ some a) × (f a s ≡ (ret b, s'))
  load-eq-ret (some a) s f e = (a, refl, e)
  load-eq-ret none s f e = cc

  -- Two binds are the same where their second parts are.
  pub continue-ext :
      (out : Ret A × S) (f g : A → Exec S B)
      → ((a : A) (s : S) → f a s ≡ g a s)
      → continue out f ≡ continue out g
  continue-ext (ret a, s) f g h = h a s
  continue-ext (panic, s) f g h = refl
