-- ===== src/Transport/Accountability/Terminal.antt =====
-- After its end a connection records nothing more, and its end is recorded once.
use hiway.Prelude.{ℕ, ◌≡◌, refl, Bool, true, false, List, [], ◌∷◌, arith}
use hiway.Transport.Contract.{Error}
use hiway.Transport.Accountability.{Accountability, observe, admit, complete, finish, cancel}

-- The reports of a protocol to its history.
pub data Report : Type 0 where
  observes completes : ℕ → Report
  admits cancels : Report
  finishes : Error → Report

unfoldable pub report : Accountability → Report → Accountability
report a (observes sequence) = observe a sequence
report a (completes sequence) = complete a sequence
report a admits = admit a
report a cancels = cancel a
report a (finishes error) = finish a error

unfoldable pub reports : Accountability → List Report → Accountability
reports a [] = a
reports a (r ∷ rs) = reports (report a r) rs

report-terminal :
    (a : Accountability) (r : Report)
    → a.terminal ≡ true
    → ((report a r).terminal ≡ true) × ((report a r).records ≡ a.records)
unfolding report observe admit complete finish cancel
report-terminal a (observes sequence) e = ground arith
report-terminal a (completes sequence) e = ground arith
report-terminal a admits e = ground arith
report-terminal a cancels e = ground arith
report-terminal a (finishes error) e = ground arith

after-terminal :
    (a : Accountability) (rs : List Report)
    → a.terminal ≡ true
    → ((reports a rs).terminal ≡ true) × ((reports a rs).records ≡ a.records)
unfolding reports report
after-terminal a [] e = (e, refl)
after-terminal a (r ∷ rs) e =
    let (still, same) = report-terminal a r e in
    let (end, kept) = after-terminal (report a r) rs still in (end, rw same at kept)

-- Whether a report is of the end of the connection.
abbrev pub is_end : Report → Bool
is_end cancels = true
is_end (finishes error) = true
is_end _ = false

end-terminal : (a : Accountability) (r : Report) → is_end r ≡ true → (report a r).terminal ≡ true
unfolding report finish cancel
end-terminal a (observes sequence) e = absurd (grind arith)
end-terminal a (completes sequence) e = absurd (grind arith)
end-terminal a admits e = absurd (grind arith)
end-terminal a cancels e = refl
end-terminal a (finishes error) e = refl

-- Whatever the history of a connection is, once its end is reported, by an error or a cancellation, no
-- further reports of any kind, another end among them, add a record or drop one.
pub reports-end :
    (a : Accountability) (r : Report) (rs : List Report)
    → is_end r ≡ true
    → (reports (report a r) rs).records ≡ (report a r).records
reports-end a r rs e = (after-terminal (report a r) rs (end-terminal a r e)).1
