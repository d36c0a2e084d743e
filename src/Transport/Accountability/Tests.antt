-- ===== src/Transport/Accountability/Tests.antt =====
-- The history of a connection that is cancelled after an admission.
use hiway.Prelude.{◌≡◌, refl, some, List, [], ◌∷◌}
use hiway.Event.{Delivery}
use hiway.Transport.Contract.{Error, Direction}
use hiway.Transport.Accountability.{
  Accountability, Outcome, new, observe, admit, complete, finish, cancel, record_outcome,
}
use hiway.Transport.Accountability.Terminal.{Report, report, reports, reports-end}
use hiway.Transport.Records

abbrev admitted : Accountability
unfolding reports report new observe admit record_outcome Records.new Records.push
admitted =
    reports
      (new (record { id = 1; generation = 1 })
        (record { event = 3; major = 1; revision = 1; delivery = Delivery.ordered })
        Direction.imports)
      (Report.observes 4 ∷ Report.admits ∷ [])

abbrev late : List Report
late = Report.admits ∷ Report.completes 4 ∷ Report.finishes Error.revoked ∷ Report.cancels ∷ []

-- The admission and the cancellation are recorded, in this order.
admitted_cancelled :
    (reports (report admitted Report.cancels) late).records
    ≡ Records.push 8
        (Records.push 8 (Records.new 8) (record { sequence = some 4; outcome = Outcome.admitted }))
        (record { sequence = some 4; outcome = Outcome.cancelled })
unfolding reports report new observe admit complete finish cancel record_outcome Records.new
    Records.push
admitted_cancelled = refl

reports-end_example :
    (reports (report admitted Report.cancels) late).records
    ≡ (report admitted Report.cancels).records
reports-end_example = reports-end admitted Report.cancels late refl
