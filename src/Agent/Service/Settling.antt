-- ===== src/Agent/Service/Settling.antt =====
-- Code that does its work once: run again, it returns the same and changes nothing.
use agents_kong.Prelude.{◌≡◌, ap, sym, ◌∙◌, Bool, true, false, if◌then◌else◌}
use agents_kong.Prelude.Go.{Ret, ret, panic}
use agents_kong.Prelude.Exec.{Exec, pure, lift, continue, ◌>>=◌, continue-eq-ret}

-- An order on the states: in the later there is more to find.
module _ {S : Type 0} (Below : S → S → Type 0) (below_refl : (s : S) → Below s s)
    (below_trans : (s t u : S) → Below s t → Below t u → Below s u) where
  -- A run of the first that returned leaves a later state, and in that state and any later one the
  -- second returns the same and leaves the state as it is.
  abbrev pub Quiets : {A : Type 0} → Exec S A → Exec S A → Type 0
  Quiets {A = A} m n =
      (s s' : S) (a : A)
      → m s ≡ (ret a, s')
      → Below s s' × ((t : S) → Below s' t → n t ≡ (ret a, t))

  -- The code itself, run again.
  abbrev pub Settles : {A : Type 0} → Exec S A → Type 0
  Settles m = Quiets m m

  pub pure-Settles : {A : Type 0} (a : A) → Settles (pure a)
  pure-Settles a s s' b e =
      let state : s ≡ s' = ap (λ out. out.1) e in
      let value : ret a ≡ ret b = ap (λ out. out.0) e in
      (rw (← state) (below_refl s), λ t later. ap (λ r. (r, t)) value)

  pub lift-Settles : {A : Type 0} (r : Ret A) → Settles (lift r)
  lift-Settles (ret a) s s' b e = pure-Settles a s s' b e
  lift-Settles panic s s' b e = cc

  pub bind-Quiets :
      {A B : Type 0} (m n : Exec S A) (f g : A → Exec S B)
      → Quiets m n
      → ((a : A) → Quiets (f a) (g a))
      → Quiets (m >>= f) (n >>= g)
  bind-Quiets m n f g hm hf s s' b e =
      let (a, u, first, second) = continue-eq-ret (m s) f e in
      let (below_u, again_m) = hm s u a first in
      let (below_s', again_f) = hf a u s' b second in
      (
        below_trans s u s' below_u below_s',
        λ t later.
            ap (λ out. continue out g) (again_m t (below_trans u s' t below_s' later))
            ∙ again_f t later,
      )

  pub bind-Settles :
      {A B : Type 0} (m : Exec S A) (f : A → Exec S B)
      → Settles m
      → ((a : A) → Settles (f a))
      → Settles (m >>= f)
  bind-Settles m f = bind-Quiets m m f f

  pub if-Settles :
      {A : Type 0} (b : Bool) (m n : Exec S A)
      → Settles m
      → Settles n
      → Settles (λ s. (if b then m else n) s)
  if-Settles true m n hm hn = hm
  if-Settles false m n hm hn = hn

  -- Code that does the same in every state.
  pub ext-Settles : {A : Type 0} (m n : Exec S A) → ((s : S) → m s ≡ n s) → Settles n → Settles m
  ext-Settles m n same hn s s' a e =
      let (below, again) = hn s s' a (sym (same s) ∙ e) in
      (below, λ t later. same t ∙ again t later)
