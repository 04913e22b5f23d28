-- ===== src/Traceability/Handler/Order.antt =====
-- The events of a batch are those of its entries, in order.
use mathlib.Core.List.{append_assoc, append-nil}
use agents_kong.Prelude.{
  ◌≡◌, refl, ap, sym, ◌∙◌, true, List, [], ◌∷◌, ◌++◌, inl, inr, Bool-cases, if◌then◌else◌,
}
use agents_kong.Prelude.Go.{Ret, ret, panic}
use agents_kong.Prelude.Exec.{Exec, continue, pure, ◌>>=◌}
use agents_kong.Traceability.Sdk.{Sdk}
use agents_kong.Traceability.Transaction.{Entry}
use agents_kong.Traceability.Handler.{is_skipped, handle_entry, handle_loop, handle}
use agents_kong.Traceability.Handler.Batch.{handle_entry-skipped}

-- the entries that the loop does not pass over
abbrev pub usable : (sdk : Sdk) → List (Entry sdk) → List (Entry sdk)
usable sdk [] = []
usable sdk (entry ∷ rest) =
    let kept = usable sdk rest in if is_skipped sdk entry then kept else entry ∷ kept

module _ {ℓ} {S A B : Type ℓ} where
  continue-ext :
      (out : Ret A × S) (f g : A → Exec S B)
      → ((a : A) (s : S) → f a s ≡ g a s)
      → continue out f ≡ continue out g
  continue-ext (ret a, s) f g h = h a s
  continue-ext (panic, s) f g h = refl

  continue_assoc :
      {C : Type ℓ} (out : Ret A × S) (f : A → Exec S B) (g : B → Exec S C)
      → continue out (λ a s. continue (f a s) g) ≡ continue (continue out f) g
  continue_assoc (ret a, s) f g = refl
  continue_assoc (panic, s) f g = refl

module _ (sdk : Sdk) where
  abbrev added : List sdk.Event → Exec sdk.State (List sdk.Event) → Exec sdk.State (List sdk.Event)
  added events m = m >>= λ later. pure (events ++ later)

  added-added :
      (xs ys : List sdk.Event) (out : Ret (List sdk.Event) × sdk.State)
      → continue out (λ later s. (ret ((xs ++ ys) ++ later), s))
        ≡ continue
            (continue out (λ later s. (ret (ys ++ later), s)))
            (λ later s. (ret (xs ++ later), s))
  added-added xs ys (ret a, s) = ap (λ l. (ret l, s)) (append_assoc xs ys a)
  added-added xs ys (panic, s) = refl

  -- the loop adds its events to those that it starts from
  loop_added :
      (entries : List (Entry sdk)) (events : List sdk.Event) (s : sdk.State)
      → handle_loop sdk entries events s ≡ added events (handle_loop sdk entries []) s
  unfolding handle_loop
  loop_added [] events s = ap (λ l. (ret l, s)) (sym (append-nil events))
  loop_added (entry ∷ rest) events s =
      continue-ext (handle_entry sdk entry s) _ _ (λ new s.
        loop_added rest (events ++ new) s
        ∙ (added-added events new (handle_loop sdk rest [] s)
            ∙ ap (λ out. continue out (λ later s. (ret (events ++ later), s)))
                (sym (loop_added rest new s))))
      ∙ continue_assoc (handle_entry sdk entry s) _ _

  loop-append :
      (xs ys : List (Entry sdk)) (events : List sdk.Event) (s : sdk.State)
      → handle_loop sdk (xs ++ ys) events s
        ≡ continue (handle_loop sdk xs events s) (handle_loop sdk ys)
  unfolding handle_loop
  loop-append [] ys events s = refl
  loop-append (x ∷ xs) ys events s =
      continue-ext (handle_entry sdk x s) _ _ (λ new. loop-append xs ys (events ++ new))
      ∙ continue_assoc (handle_entry sdk x s) _ _

  -- Handle of a batch in two parts is Handle of the first and then of the second, in the state that
  -- the first leaves, with the events of the first in front.
  pub handle-append :
      (xs ys : List (Entry sdk)) (s : sdk.State)
      → handle sdk (xs ++ ys) s
        ≡ (do earlier ← handle sdk xs; later ← handle sdk ys; pure (earlier ++ later)) s
  unfolding handle
  handle-append xs ys s =
      loop-append xs ys [] s
      ∙ continue-ext (handle_loop sdk xs [] s) _ _ (λ earlier. loop_added ys earlier)

  loop-skipped :
      (entry : Entry sdk) (rest : List (Entry sdk)) (events : List sdk.Event) (s : sdk.State)
      → is_skipped sdk entry ≡ true
      → handle_loop sdk (entry ∷ rest) events s ≡ handle_loop sdk rest events s
  unfolding handle_loop
  loop-skipped entry rest events s h =
      ap (λ out. continue out (λ new. handle_loop sdk rest (events ++ new)))
        (handle_entry-skipped sdk entry s h)
      ∙ ap (λ l. handle_loop sdk rest l s) (append-nil events)

  loop-usable :
      (entries : List (Entry sdk)) (events : List sdk.Event) (s : sdk.State)
      → handle_loop sdk entries events s ≡ handle_loop sdk (usable sdk entries) events s
  unfolding handle_loop
  loop-usable [] events s = refl
  loop-usable (entry ∷ rest) events s = elim (Bool-cases (is_skipped sdk entry)) [
    | inl skipped ↦
        loop-skipped entry rest events s skipped
        ∙ (loop-usable rest events s
            ∙ ap
                (λ b.
                  handle_loop sdk (if b then usable sdk rest else entry ∷ usable sdk rest) events s)
                (sym skipped))
    | inr kept ↦
        continue-ext (handle_entry sdk entry s) _ _ (λ new. loop-usable rest (events ++ new))
        ∙ ap
            (λ b. handle_loop sdk (if b then usable sdk rest else entry ∷ usable sdk rest) events s)
            (sym kept)
  ]

  -- Handle of a batch is Handle of its entries with a request and a response: the others give no
  -- event and leave no trace in the state.
  pub handle-usable :
      (entries : List (Entry sdk)) (s : sdk.State)
      → handle sdk entries s ≡ handle sdk (usable sdk entries) s
  unfolding handle
  handle-usable entries s = loop-usable entries [] s
