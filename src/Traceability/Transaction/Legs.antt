-- ===== src/Traceability/Transaction/Legs.antt =====
-- Only a sampled transaction is reported with its leg.
use agents_kong.Prelude.{
  String, ◌≡◌, refl, ap, ◌∙◌, Bool, true, false, not, Option, none, some, length, if◌then◌else◌,
}
use agents_kong.Prelude.Go.{Result, ok, err, Ret, ret, ◌>>=◌, >>=-eq-ret, ret-injective}
use agents_kong.Traceability.Sdk.{Sdk, EventReport}
use agents_kong.Traceability.Transaction.{
  Entry, http_protocol, transaction_event, with_protocol, create_transaction_event,
  create_summary_event, legs, with_summary, with_leg, create_report,
}

module _ (sdk : Sdk) (entry : Entry sdk) (txn_id : String) where
  -- The legs are those of the event, and only metrics are tracked of what is not sampled.
  abbrev Holds : Option sdk.LogEvent → EventReport sdk.LogEvent → Type 0
  Holds event r = (r.legs ≡ legs sdk event) × (r.only_track_metrics ≡ not entry.should_sample)

  summary-Holds :
      (event : Option sdk.LogEvent) (summary : Result sdk.LogEvent) (r : EventReport sdk.LogEvent)
      → with_summary sdk entry event summary ≡ ok r
      → Holds event r
  unfolding with_summary
  summary-Holds event (err e) r h = cc
  summary-Holds event (ok summary) r h = (cc, cc)

  leg-Holds :
      (event : Option sdk.LogEvent) (r : EventReport sdk.LogEvent)
      → with_leg sdk entry txn_id (ok event) ≡ ret (ok r)
      → Holds event r
  unfolding with_leg
  leg-Holds event r h =
      let (summary, made, built) = >>=-eq-ret (create_summary_event sdk entry "id" txn_id) _ h in
      summary-Holds event summary r (ret-injective built)

  -- the number of legs of what the leg's building gives
  abbrev Counts : Option sdk.LogEvent → Type 0
  Counts event = length (legs sdk event) ≡ (if entry.should_sample then 1 else 0)

  built_some :
      (built : Result sdk.LogEvent) (event : Option sdk.LogEvent)
      → ◌≡◌ {A = Result (Option sdk.LogEvent)}
          (elim built [ err e ↦ err e | ok leg ↦ ok (some leg) ])
          (ok event)
      → length (legs sdk event) ≡ 1
  unfolding legs
  built_some (err e) event h = cc
  built_some (ok leg) none h = cc
  built_some (ok leg) (some event) h = refl

  protocol_some :
      (p : Result sdk.Protocol) (event : Option sdk.LogEvent)
      → with_protocol sdk entry txn_id p ≡ ret (ok event)
      → length (legs sdk event) ≡ 1
  unfolding with_protocol
  protocol_some (err e) event h = cc
  protocol_some (ok p) event h =
      let (fields, made, built) = >>=-eq-ret (transaction_event sdk entry txn_id p) _ h in
      built_some _ event (ret-injective built)

  event-Counts :
      (event : Option sdk.LogEvent)
      → create_transaction_event sdk entry txn_id ≡ ret (ok event)
      → Counts event
  unfolding create_transaction_event legs
  event-Counts event h = go entry.should_sample h
    where
      go :
          (b : Bool)
          → (if not b
              then ret (ok none)
              else (http_protocol sdk entry >>= λ fields.
                  with_protocol sdk entry txn_id (sdk.build_protocol fields)))
            ≡ ret (ok event)
          → length (legs sdk event) ≡ (if b then 1 else 0)
      go false h = empty event h
        where
          empty :
              (event : Option sdk.LogEvent)
              → ◌≡◌ {A = Ret (Result (Option sdk.LogEvent))} (ret (ok none)) (ret (ok event))
              → length (legs sdk event) ≡ 0
          empty none h = refl
          empty (some e) h = cc
      go true h =
          let (fields, made, built) = >>=-eq-ret (http_protocol sdk entry) _ h in
          protocol_some _ event built

  with_leg_ok :
      (leg : Result (Option sdk.LogEvent)) (r : EventReport sdk.LogEvent)
      → with_leg sdk entry txn_id leg ≡ ret (ok r)
      → (event : Option sdk.LogEvent) × (leg ≡ ok event)
  unfolding with_leg
  with_leg_ok (err e) r h = cc
  with_leg_ok (ok event) r h = (event, refl)

  -- The report of a transaction has one leg if the transaction is sampled, and else no leg and the
  -- mark that only metrics are tracked of it.
  pub create_report_legs :
      (r : EventReport sdk.LogEvent)
      → create_report sdk entry txn_id ≡ ret (ok r)
      → (length r.legs ≡ (if entry.should_sample then 1 else 0))
        × (r.only_track_metrics ≡ not entry.should_sample)
  unfolding create_report
  create_report_legs r h =
      let (leg, made, rest) = >>=-eq-ret (create_transaction_event sdk entry txn_id) _ h in
      let (event, same) = with_leg_ok leg r rest in
      let (held, tracked) = leg-Holds event r (rw same at rest) in
      (ap length held ∙ event-Counts event (made ∙ ap ret same), tracked)
