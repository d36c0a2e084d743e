-- ===== src/Unix/Credit/Rounds.antt =====
-- hiway/src/unix.rs: an exporting and an importing end of a link, by the rounds of their loops.
use hiway.Prelude.{
  ℕ, ◌^◌, ◌<◌, Bool, true, false, ◌||◌, Option, none, some, List, [], ◌∷◌, ◌++◌, if◌then◌else◌,
  take, Result, ok, err, panic,
}
use hiway.Wire.{WireError}
use hiway.Static.{StreamItem, item}
use hiway.Transport.Contract.{Contract, header_bytes}
use hiway.Transport.Accountability.{complete}
use hiway.Unix.{IpcError, Announcement, Trace, traced}
use hiway.Unix.Credit.{
  Credits, no_credits, receive_credit, export_item, written, import_header, import_payload,
}

-- What the two ends keep: the credits, the history and the sequence whose write has not ended, and the
-- last admitted sequence and the history of the importing end. An end whose loop has returned is over.
pub record Ends : Type 0 where
  pub credits : Credits
  pub trace : Trace
  pub writing : Option ℕ
  pub exporter_over : Bool
  pub previous : Option ℕ
  pub imported : Trace
  pub importer_over : Bool

-- The ends with the frames that are not read by the importing end and the credits that are not read by
-- the exporting end.
abbrev pub Link : Type 0
Link = Ends × (List (List ℕ) × List (List ℕ))

-- A round exports an item through a buffer, has its writes end, imports the next frame, with what
-- decoding and sending its payload gives and whether its credit is written, or reads the next credit;
-- or an end stops, as on an error of its sockets or a revocation.
pub data Round (Payload : Type 0) : Type 0 where
  exports : List ℕ → StreamItem Payload → Round Payload
  writes reads stops_exporter stops_importer : Round Payload
  imports : Result (Unit {0}) IpcError → Bool → Round Payload

abbrev pub Frames : Type 0
Frames = List (List ℕ)

-- The end of an export: the frame that goes out, of the sequence stored in the credits, or an error.
unfoldable pub exported :
    Ends → Frames → Frames → (Credits × Trace) × Result (List ℕ) IpcError → Link
exported e frames credits ((c, t), ok bytes) = (
  record e { credits = c; trace = t; writing = some c.sequence },
  (frames ++ bytes ∷ [], credits),
)
exported e frames credits ((c, t), err error) =
    (record e { credits = c; trace = t; exporter_over = true }, (frames, credits))
exported e frames credits ((c, t), panic) =
    (record e { credits = c; trace = t; exporter_over = true }, (frames, credits))

-- The end of an import: whether the credit is written, which then completes the sequence.
unfoldable pub answered :
    Ends → Frames → Frames → Bool → ℕ → (Option ℕ × Trace) × Result (List ℕ) IpcError → Link
answered e frames credits true sequence ((last, t), ok credit) = (
  record e { previous = last; imported = traced (λ a. complete a sequence) t },
  (frames, credits ++ credit ∷ []),
)
answered e frames credits false sequence ((last, t), ok credit) =
    (record e { previous = last; imported = t; importer_over = true }, (frames, credits))
answered e frames credits sent sequence ((last, t), err error) =
    (record e { previous = last; imported = t; importer_over = true }, (frames, credits))
answered e frames credits sent sequence ((last, t), panic) =
    (record e { previous = last; imported = t; importer_over = true }, (frames, credits))

-- The rest of an import after its header.
unfoldable pub headed :
    Ends
    → Frames
    → Frames
    → Result (Unit {0}) IpcError
    → Bool
    → Trace × Result Announcement IpcError
    → Link
unfolding answered
headed e frames credits delivered sent (t, ok a) =
    answered e frames credits sent a.sequence (import_payload e.previous t a.sequence delivered)
headed e frames credits delivered sent (t, err error) =
    (record e { imported = t; importer_over = true }, (frames, credits))
headed e frames credits delivered sent (t, panic) =
    (record e { imported = t; importer_over = true }, (frames, credits))

-- The end of a read of a credit.
unfoldable pub credited_by :
    Ends → Frames → Frames → (Credits × Trace) × Result (Unit {0}) IpcError → Link
credited_by e frames credits ((c, t), ok _) =
    (record e { credits = c; trace = t }, (frames, credits))
credited_by e frames credits ((c, t), _) =
    (record e { credits = c; trace = t; exporter_over = true }, (frames, credits))

unfoldable pub write_ends : Ends → Option ℕ → Ends
unfolding written
write_ends e none = e
write_ends e (some sequence) =
    let (c, t) = written e.credits e.trace sequence in
    record e { credits = c; trace = t; writing = none }

abbrev pub is_writing : Option ℕ → Bool
is_writing none = false
is_writing (some sequence) = true

module _ {Payload : Type 0} (encoded_len : Payload → ℕ)
    (encode : Payload → List ℕ → Result ℕ WireError × List ℕ) (source target : Contract)
    (limit : ℕ) where
  -- An export waits until no credit is outstanding.
  unfoldable pub step : Link → Round Payload → Link
  unfolding exported headed credited_by write_ends
  step (e, (frames, credits)) (exports buffer value) =
      if e.exporter_over || is_writing e.writing || e.credits.outstanding
      then (e, (frames, credits))
      else exported e frames credits
          (export_item encoded_len encode source buffer e.credits e.trace value)
  step (e, (frames, credits)) writes =
      (if e.exporter_over then e else write_ends e e.writing, (frames, credits))
  step (e, ([], credits)) (imports delivered sent) = (e, ([], credits))
  step (e, (frame ∷ frames, credits)) (imports delivered sent) =
      if e.importer_over
      then (e, (frame ∷ frames, credits))
      else headed e frames credits delivered sent
          (import_header target limit e.previous e.imported (take header_bytes frame))
  step (e, (frames, [])) reads = (e, (frames, []))
  step (e, (frames, credit ∷ credits)) reads =
      if e.exporter_over
      then (e, (frames, credit ∷ credits))
      else credited_by e frames credits (receive_credit e.credits e.trace credit)
  step (e, link) stops_exporter = (record e { exporter_over = true }, link)
  step (e, link) stops_importer = (record e { importer_over = true }, link)

  unfoldable pub run : Link → List (Round Payload) → Link
  run l [] = l
  run l (r ∷ rest) = run (step l r) rest

-- The ends of a new link, with the histories that they are to keep.
abbrev pub opened : Trace → Trace → Link
opened trace imported = (
  record {
    credits = no_credits;
    trace = trace;
    writing = none;
    exporter_over = false;
    previous = none;
    imported = imported;
    importer_over = false;
  },
  ([], []),
)

-- An exported sequence fits its field.
unfoldable pub Fits : {Payload : Type 0} → Round Payload → Type 0
Fits (exports buffer (item sequence value)) = sequence < 2 ^ 64
Fits _ = Unit
