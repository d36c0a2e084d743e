-- ===== src/Unix/Credit/Bounded.antt =====
-- There is never more than one frame or credit on its way between the ends of a link over sockets.
use mathlib.Core.Path.{subst, sym}
use hiway.Prelude.{
  ℕ, ◌+◌, ◌^◌, ◌<◌, ◌≤◌, ◌≡◌, refl, ◌∙◌, Bool, true, false, ◌||◌, Option, none, some, List, [], ◌∷◌,
  if◌then◌else◌, length, take, Result, ok, err, panic, All, arith,
}
use hiway.Wire.{WireError}
use hiway.Transport.Contract.{Contract, header_bytes}
use hiway.Unix.{IpcError, Announcement, Trace, field, decode_header}
use hiway.Unix.Credit.{
  Credits, no_credits, receive_credit, credit_frame, export_item, written, import_header,
  import_payload,
}
use hiway.Unix.Credit.Rounds.{
  Ends, Link, Frames, Round, exports, writes, reads, stops_exporter, stops_importer, imports,
  exported, answered, headed, credited_by, write_ends, is_writing, step, run, opened, Fits,
}
use hiway.Unix.Credit.Sent.{receive_credit-own, Sends, export_item-Sends}

-- Nothing is on its way, or a frame with the outstanding sequence, or the credit for it.
pub data OnWay : Credits → List (List ℕ) → List (List ℕ) → Type 0 where
  nothing : (c : Credits) → OnWay c [] []
  framed :
      (c : Credits) (frame : List ℕ)
      → c.outstanding ≡ true
      → c.sequence < 2 ^ 64
      → field (take header_bytes frame) 26 8 ≡ c.sequence
      → OnWay c (frame ∷ []) []
  credited :
      (c : Credits)
      → c.outstanding ≡ true
      → c.sequence < 2 ^ 64
      → OnWay c [] (credit_frame c.sequence ∷ [])

abbrev pub Bounded : Link → Type 0
Bounded (e, (frames, credits)) = OnWay e.credits frames credits

module _ {Payload : Type 0} (encoded_len : Payload → ℕ)
    (encode : Payload → List ℕ → Result ℕ WireError × List ℕ) (source target : Contract)
    (limit : ℕ) where
  exported-Bounded :
      (e : Ends) (out : (Credits × Trace) × Result (List ℕ) IpcError)
      → Sends out
      → Bounded (exported e [] [] out)
  unfolding exported Sends
  exported-Bounded e ((c, t), ok bytes) h = framed c bytes h.0 h.1 h.2
  exported-Bounded e ((c, t), err error) h = nothing c
  exported-Bounded e ((c, t), panic) h = nothing c

  if-Bounded :
      (b : Bool) (l l' : Link)
      → (b ≡ true → Bounded l)
      → (b ≡ false → Bounded l')
      → Bounded (if b then l else l')
  if-Bounded true l l' h k = h refl
  if-Bounded false l l' h k = k refl

  import_header-sequence :
      (last : Option ℕ) (trace : Trace) (header : List ℕ)
      (P : Trace × Result Announcement IpcError → Type 0)
      → ((t : Trace) (a : Announcement) → a.sequence ≡ field header 26 8 → P (t, ok a))
      → ((t : Trace) (error : IpcError) → P (t, err error))
      → P (import_header target limit last trace header)
  unfolding import_header decode_header
  import_header-sequence last trace header P f g = grind arith

  answered-Bounded :
      (e : Ends) (sent : Bool) (delivered : Result (Unit {0}) IpcError) (a : Announcement)
      (t : Trace)
      → e.credits.outstanding ≡ true
      → e.credits.sequence < 2 ^ 64
      → a.sequence ≡ e.credits.sequence
      → Bounded (headed e [] [] delivered sent (t, ok a))
  unfolding headed answered import_payload
  answered-Bounded e true (ok _) a t unread h same =
      subst (λ sequence. OnWay e.credits [] (credit_frame sequence ∷ [])) (sym same)
        (credited e.credits unread h)
  answered-Bounded e false (ok _) a t unread h same = nothing e.credits
  answered-Bounded e sent (err error) a t unread h same = nothing e.credits
  answered-Bounded e sent panic a t unread h same = nothing e.credits

  import-Bounded :
      (e : Ends) (sent : Bool) (delivered : Result (Unit {0}) IpcError) (frame : List ℕ)
      → e.credits.outstanding ≡ true
      → e.credits.sequence < 2 ^ 64
      → field (take header_bytes frame) 26 8 ≡ e.credits.sequence
      → Bounded (
          headed e [] [] delivered sent
            (import_header target limit e.previous e.imported (take header_bytes frame)))
  unfolding headed
  import-Bounded e sent delivered frame unread h same =
      import_header-sequence e.previous e.imported (take header_bytes frame)
        (λ out. Bounded (headed e [] [] delivered sent out))
        (λ t a own. answered-Bounded e sent delivered a t unread h (own ∙ same))
        (λ t error. nothing e.credits)

  write_ends-Bounded :
      (e : Ends) (writing : Option ℕ) (frames credits : Frames)
      → OnWay e.credits frames credits
      → OnWay (write_ends e writing).credits frames credits
  unfolding write_ends written
  write_ends-Bounded e none frames credits h = h
  write_ends-Bounded e (some sequence) fs cs (nothing c) = nothing (record c { sent = true })
  write_ends-Bounded e (some sequence) fs cs (framed c frame u h s) =
      framed (record c { sent = true }) frame u h s
  write_ends-Bounded e (some sequence) fs cs (credited c u h) =
      credited (record c { sent = true }) u h

  credited_by-Bounded :
      (e : Ends) (out : (Credits × Trace) × Result (Unit {0}) IpcError)
      → Bounded (credited_by e [] [] out)
  unfolding credited_by
  credited_by-Bounded e ((c, t), ok _) = nothing c
  credited_by-Bounded e ((c, t), err error) = nothing c
  credited_by-Bounded e ((c, t), panic) = nothing c

  step-Bounded :
      (e : Ends) (frames credits : Frames) (r : Round Payload)
      → Fits r
      → OnWay e.credits frames credits
      → Bounded (step encoded_len encode source target limit (e, (frames, credits)) r)
  unfolding step
  step-Bounded e fs cs (exports buffer value) f (nothing c) =
      if-Bounded (e.exporter_over || is_writing e.writing || e.credits.outstanding) (e, ([], []))
        (exported e [] [] (export_item encoded_len encode source buffer e.credits e.trace value))
        (λ waits. nothing c)
        (λ goes.
          exported-Bounded e (export_item encoded_len encode source buffer e.credits e.trace value)
            (export_item-Sends encoded_len encode source buffer e.credits e.trace value f))
  step-Bounded e fs cs (exports buffer value) f (framed c frame unread small same) =
      if-Bounded (e.exporter_over || is_writing e.writing || e.credits.outstanding)
        (e, (frame ∷ [], []))
        (exported e (frame ∷ []) []
          (export_item encoded_len encode source buffer e.credits e.trace value))
        (λ waits. framed c frame unread small same) (λ goes. absurd (grind arith))
  step-Bounded e fs cs (exports buffer value) f (credited c unread small) =
      if-Bounded (e.exporter_over || is_writing e.writing || e.credits.outstanding)
        (e, ([], credit_frame c.sequence ∷ []))
        (exported e [] (credit_frame c.sequence ∷ [])
          (export_item encoded_len encode source buffer e.credits e.trace value))
        (λ waits. credited c unread small) (λ goes. absurd (grind arith))
  step-Bounded e frames credits writes f h =
      elim e.exporter_over
        as (λ b. OnWay (if b then e else write_ends e e.writing).credits frames credits) [
          | true ↦ h
          | false ↦ write_ends-Bounded e e.writing frames credits h
        ]
  step-Bounded e fs cs (imports delivered sent) f (nothing c) = nothing c
  step-Bounded e fs cs (imports delivered sent) f (credited c unread small) =
      credited c unread small
  step-Bounded e fs cs (imports delivered sent) f (framed c frame unread small same) =
      if-Bounded e.importer_over (e, (frame ∷ [], []))
        (headed e [] [] delivered sent
          (import_header target limit e.previous e.imported (take header_bytes frame)))
        (λ over. framed c frame unread small same)
        (λ runs. import-Bounded e sent delivered frame unread small same)
  step-Bounded e fs cs reads f (nothing c) = nothing c
  step-Bounded e fs cs reads f (framed c frame unread small same) = framed c frame unread small same
  step-Bounded e fs cs reads f (credited c unread small) =
      if-Bounded e.exporter_over (e, ([], credit_frame c.sequence ∷ []))
        (credited_by e [] [] (receive_credit c e.trace (credit_frame c.sequence)))
        (λ over. credited c unread small)
        (λ runs. credited_by-Bounded e (receive_credit c e.trace (credit_frame c.sequence)))
  step-Bounded e frames credits stops_exporter f h = h
  step-Bounded e frames credits stops_importer f h = h

  run-Bounded :
      (l : Link) (rounds : List (Round Payload))
      → All Fits rounds
      → Bounded l
      → Bounded (run encoded_len encode source target limit l rounds)
  unfolding run
  run-Bounded l [] f h = h
  run-Bounded (e, (frames, credits)) (r ∷ rest) f h =
      run-Bounded (step encoded_len encode source target limit (e, (frames, credits)) r) rest f.1
        (step-Bounded e frames credits r f.0 h)

-- What a next read of a credit answers.
unfoldable pub answer : Link → Result (Unit {0}) IpcError
answer (e, (frames, [])) = ok tt
answer (e, (frames, credit ∷ rest)) = (receive_credit e.credits e.trace credit).1

OnWay-answer :
    (e : Ends) (frames credits : Frames)
    → OnWay e.credits frames credits
    → (length frames + length credits ≤ 1) × (answer (e, (frames, credits)) ≡ ok tt)
unfolding answer
OnWay-answer e fs cs (nothing c) = (omega arith, refl)
OnWay-answer e fs cs (framed c frame unread small same) = (omega arith, refl)
OnWay-answer e fs cs (credited c unread small) =
    (omega arith, (receive_credit-own c e.trace unread small).0)

-- Whatever rounds the two ends of a new link run, each of which may fail wherever its loop does, and
-- whatever the codec and the local streams answer, with exported sequences that fit a u64, at most one
-- frame or credit is on its way between the ends, and a credit that is read is never taken for a
-- protocol error.
pub run-bounded :
    {Payload : Type 0} (encoded_len : Payload → ℕ)
    (encode : Payload → List ℕ → Result ℕ WireError × List ℕ) (source target : Contract) (limit : ℕ)
    (trace imported : Trace) (rounds : List (Round Payload))
    → All Fits rounds
    → let l = run encoded_len encode source target limit (opened trace imported) rounds in
      (length l.1.0 + length l.1.1 ≤ 1) × (answer l ≡ ok tt)
run-bounded encoded_len encode source target limit trace imported rounds f =
    let l = run encoded_len encode source target limit (opened trace imported) rounds in
    OnWay-answer l.0 l.1.0 l.1.1 (
      run-Bounded encoded_len encode source target limit (opened trace imported) rounds f
        (nothing no_credits))
