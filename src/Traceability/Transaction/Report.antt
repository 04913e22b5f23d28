-- ===== src/Traceability/Transaction/Report.antt =====
-- A log entry with all its parts gives a report, and what the report holds.
use agents_kong.Prelude.{
  String, ◌≡◌, refl, Bool, true, false, not, Option, none, some, if◌then◌else◌,
}
use agents_kong.Prelude.Go.{Result, ok, err, Ret, ret, panic, deref, ◌>>=◌}
use agents_kong.Traceability.Sdk.{Sdk}
use agents_kong.Traceability.Transaction.{
  Entry, build_ssl_info_if_available, http_protocol, transaction_event, with_protocol,
  create_transaction_event, create_summary_event, with_leg, create_report,
}

abbrev pub Present {ℓ} : {A : Type ℓ} → Option A → Type ℓ
Present {A = A} o = (a : A) × (o ≡ some a)

abbrev pub Returned {ℓ} : {A : Type ℓ} → Ret A → Type ℓ
Returned {A = A} r = (a : A) × (r ≡ ret a)

pub bind-Returned {ℓ} :
    {A B : Type ℓ} (m : Ret A) (f : A → Ret B)
    → Returned m
    → ((a : A) → Returned (f a))
    → Returned (m >>= f)
bind-Returned (ret a) f r k = k a
bind-Returned panic f (a, e) k = cc

pub deref-Returned {ℓ} : {A : Type ℓ} (o : Option A) → Present o → Returned (deref o)
deref-Returned none (a, e) = cc
deref-Returned (some a) p = (a, refl)

pub if-Returned {ℓ} :
    {A : Type ℓ} (b : Bool) (x y : Ret A) → Returned x → Returned y → Returned (if b then x else y)
if-Returned true x y p q = p
if-Returned false x y p q = q

module _ (sdk : Sdk) where
  -- An entry with each part that the processor follows a pointer to.
  pub record IsComplete (entry : Entry sdk) : Type 0 where
    pub request : Present entry.request
    pub response : Present entry.response
    pub service : Present entry.service
    pub route : Present entry.route
    pub latencies : Present entry.latencies

  module _ (entry : Entry sdk) (c : IsComplete entry) (txn_id : String) where
    ssl-Returned : Returned (build_ssl_info_if_available sdk entry)
    unfolding build_ssl_info_if_available
    ssl-Returned =
        bind-Returned (deref entry.request) _ (deref-Returned _ c.request) (λ request. (_, refl))

    protocol-Returned : Returned (http_protocol sdk entry)
    unfolding http_protocol
    protocol-Returned =
        bind-Returned (deref entry.request) _ (deref-Returned _ c.request) (λ request.
          bind-Returned (deref entry.response) _ (deref-Returned _ c.response) (λ response.
            bind-Returned (deref entry.service) _ (deref-Returned _ c.service)
              (λ service. bind-Returned _ _ ssl-Returned (λ ssl. (_, refl)))))

    event-Returned : (p : sdk.Protocol) → Returned (transaction_event sdk entry txn_id p)
    unfolding transaction_event
    event-Returned p =
        bind-Returned (deref entry.request) _ (deref-Returned _ c.request) (λ request.
          bind-Returned (deref entry.response) _ (deref-Returned _ c.response) (λ response.
            bind-Returned (deref entry.latencies) _ (deref-Returned _ c.latencies)
              (λ l. (_, refl))))

    with_protocol-Returned : (p : Result sdk.Protocol) → Returned (with_protocol sdk entry txn_id p)
    unfolding with_protocol
    with_protocol-Returned (err e) = (_, refl)
    with_protocol-Returned (ok p) = bind-Returned _ _ (event-Returned p) (λ event. (_, refl))

    leg-Returned : Returned (create_transaction_event sdk entry txn_id)
    unfolding create_transaction_event
    leg-Returned =
        if-Returned (not entry.should_sample) _ _ (_, refl)
          (bind-Returned _ _ protocol-Returned (λ fields. with_protocol-Returned _))

    summary-Returned : (team : String) → Returned (create_summary_event sdk entry team txn_id)
    unfolding create_summary_event
    summary-Returned team =
        bind-Returned (deref entry.response) _ (deref-Returned _ c.response) (λ response.
          bind-Returned (deref entry.service) _ (deref-Returned _ c.service) (λ service.
            bind-Returned (deref entry.request) _ (deref-Returned _ c.request) (λ request.
              bind-Returned (deref entry.latencies) _ (deref-Returned _ c.latencies) (λ l.
                bind-Returned (deref entry.route) _ (deref-Returned _ c.route)
                  (λ route. (_, refl))))))

    with_leg-Returned :
        (leg : Result (Option sdk.LogEvent)) → Returned (with_leg sdk entry txn_id leg)
    unfolding with_leg
    with_leg-Returned (err e) = (_, refl)
    with_leg-Returned (ok leg) = bind-Returned _ _ (summary-Returned "id") (λ summary. (_, refl))

    pub create_report-Returned : Returned (create_report sdk entry txn_id)
    unfolding create_report
    create_report-Returned = bind-Returned _ _ leg-Returned (λ leg. with_leg-Returned leg)
