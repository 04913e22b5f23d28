-- ===== src/Traceability/Handler/Batch.antt =====
-- A batch of log entries is handled to its end, entry by entry.
use agents_kong.Prelude.{
  ◌≡◌, inl, inr, refl, ap, Bool, true, false, not, ◌||◌, is_some, Option, none, some, List, [], ◌∷◌,
  ◌++◌, Bool-cases, if◌then◌else◌,
}
use agents_kong.Prelude.Go.{Result, ok, err, Ret, ret, panic}
use agents_kong.Prelude.Exec.{Exec, continue}
use agents_kong.Traceability.Sdk.{Sdk}
use agents_kong.Traceability.Transaction.{Entry, create_report, send, publish, process}
use agents_kong.Traceability.Transaction.Report.{
  Present, Returned, IsComplete, create_report-Returned,
}
use agents_kong.Traceability.Handler.{
  validate_transaction, with_sample, metrics_process, is_skipped, handle_transaction,
  handle_measured, handle_entry, handle_loop, handle,
}

continue-Returned {ℓ} :
    {S A B : Type ℓ} (out : Ret A × S) (f : A → Exec S B)
    → Returned out.0
    → ((a : A) (s : S) → Returned (f a s).0)
    → Returned (continue out f).0
continue-Returned (ret a, s) f r k = k a s
continue-Returned (panic, s) f (a, e) k = cc

some_present {ℓ} : {A : Type ℓ} (o : Option A) → is_some o ≡ true → Present o
some_present none e = cc
some_present (some a) e = (a, refl)

module _ (sdk : Sdk) where
  process-Returned :
      (entry : Entry sdk)
      → IsComplete sdk entry
      → (s : sdk.State) → Returned (process sdk entry s).0
  unfolding process publish send
  process-Returned entry c s =
      continue-Returned (create_report sdk entry (sdk.new_uuid s).0, (sdk.new_uuid s).1)
        (publish sdk) (create_report-Returned sdk entry c _) published
    where
      sent : (r : Result sdk.Report) (s : sdk.State) → Returned (send sdk r s).0
      sent (err e) s = (_, refl)
      sent (ok report) s = (_, refl)

      published : (r : _) (s : sdk.State) → Returned (publish sdk r s).0
      published (err e) s = (_, refl)
      published (ok fields) s = sent (sdk.build_report fields) s

  transaction-Returned :
      (entry : Entry sdk)
      → IsComplete sdk entry
      → (s : sdk.State) → Returned (handle_transaction sdk entry s).0
  unfolding handle_transaction
  transaction-Returned entry c s =
      continue-Returned (process sdk entry s) _ (process-Returned entry c s) (λ events s. (_, refl))

  validated :
      (entry : Entry sdk)
      → is_some entry.request ≡ true
      → is_some entry.response ≡ true
      → IsComplete sdk (validate_transaction sdk entry)
  unfolding validate_transaction
  validated entry q p = record {
    request = some_present entry.request q;
    response = some_present entry.response p;
    service = (_, refl);
    route = (_, refl);
    latencies = (_, refl);
  }

  measured-Returned :
      (entry : Entry sdk)
      → IsComplete sdk entry
      → (sampled : Result Bool) (s : sdk.State)
      → Returned (handle_measured sdk (with_sample sdk entry sampled) s).0
  unfolding handle_measured
  measured-Returned entry c (err e) s = (_, refl)
  measured-Returned entry c (ok sample) s =
      transaction-Returned (record entry { should_sample = sample })
        (record {
          request = c.request;
          response = c.response;
          service = c.service;
          route = c.route;
          latencies = c.latencies;
        })
        s

  abbrev measure : Entry sdk → Exec sdk.State (List sdk.Event)
  measure entry s =
      continue (metrics_process sdk (validate_transaction sdk entry) s) (handle_measured sdk)

  measure-Returned :
      (entry : Entry sdk) (s : sdk.State)
      → IsComplete sdk (validate_transaction sdk entry)
      → Returned (measure entry s).0
  unfolding metrics_process
  measure-Returned entry s c = measured-Returned (validate_transaction sdk entry) c _ _

  complete :
      (entry : Entry sdk)
      → is_skipped sdk entry ≡ false
      → IsComplete sdk (validate_transaction sdk entry)
  complete entry h = go (is_some entry.request) refl (is_some entry.response) refl h
    where
      go :
          (q : Bool)
          → is_some entry.request ≡ q
          → (p : Bool) → is_some entry.response ≡ p
          → not q || not p ≡ false
          → IsComplete sdk (validate_transaction sdk entry)
      go false e p k h = cc
      go true e false k h = cc
      go true e true k h = validated entry e k

  pub handle_entry-skipped :
      (entry : Entry sdk) (s : sdk.State)
      → is_skipped sdk entry ≡ true
      → handle_entry sdk entry s ≡ (ret [], s)
  unfolding handle_entry
  handle_entry-skipped entry s h = ap (λ b. (if b then (λ s. (ret [], s)) else measure entry) s) h

  handle_entry-measured :
      (entry : Entry sdk) (s : sdk.State)
      → is_skipped sdk entry ≡ false
      → handle_entry sdk entry s ≡ measure entry s
  unfolding handle_entry
  handle_entry-measured entry s h = ap (λ b. (if b then (λ s. (ret [], s)) else measure entry) s) h

  entry-Returned : (entry : Entry sdk) (s : sdk.State) → Returned (handle_entry sdk entry s).0
  entry-Returned entry s = elim (Bool-cases (is_skipped sdk entry)) [
    | inl skipped ↦ ([], ap (λ out. out.0) (handle_entry-skipped entry s skipped))
    | inr kept ↦
        rw (handle_entry-measured entry s kept) (measure-Returned entry s (complete entry kept))
  ]

  loop-Returned :
      (entries : List (Entry sdk)) (events : List sdk.Event) (s : sdk.State)
      → Returned (handle_loop sdk entries events s).0
  unfolding handle_loop
  loop-Returned [] events s = (events, refl)
  loop-Returned (entry ∷ rest) events s =
      continue-Returned (handle_entry sdk entry s) _ (entry-Returned entry s)
        (λ new s. loop-Returned rest (events ++ new) s)

  -- Handle returns events for every batch and does not panic, whatever parts its entries lack.
  pub handle-Returned :
      (entries : List (Entry sdk)) (s : sdk.State) → Returned (handle sdk entries s).0
  unfolding handle
  handle-Returned entries s = loop-Returned entries [] s
