-- ===== src/Transport/Protocol/Transition.antt =====
-- `transition` and `input` of hiway/src/transport/protocol.rs.
use hiway.Prelude.{
  ℕ, Bool, true, false, not, ◌||◌, Option, none, some, List, [], ◌∷◌, ◌==◌, ltb, if◌then◌else◌,
  length, Result, ok, err, panic, checked_add,
}
use hiway.Transport.Operation.{OpId}
use hiway.Transport.Contract.{Error, header_bytes}
use hiway.Transport.Accountability.{Accountability, Connection, Record}
use hiway.Transport.Accountability
use hiway.Transport.Protocol.Parts.{
  Lane, Lanes, Effect, IoResult, Input, Stage, at, set_at, is_source, is_admission, is_transfer,
  requested, is_of,
}
use hiway.Transport.Protocol.{Protocol, tell, observe_sequence, effect}
use hiway.Transport.Protocol.Progress.{progress}

-- `self.closed.get_or_insert(error)`
unfoldable pub close : Protocol → Error → Protocol
close s error = record s { closed = some (elim s.closed [ none ↦ error | some first ↦ first ]) }

-- Whether an active operation has this id.
abbrev pub in_use : Lanes (Option (OpId × Effect)) → OpId → Bool
in_use active op =
    is_of active.on_data op || is_of active.on_credit_send op || is_of active.on_credit_receive op

-- `active.iter().position(…)`
abbrev pub position : Lanes (Option (OpId × Effect)) → OpId → Option Lane
position active op =
    if is_of active.on_data op
    then some Lane.data_lane
    else if is_of active.on_credit_send op
    then some Lane.credit_send
    else if is_of active.on_credit_receive op
    then some Lane.credit_receive
    else none

unfoldable pub accept : Protocol → Lane → OpId → Protocol × Result (Unit {0}) Error
unfolding effect
accept s lane op = elim (effect s lane) [
  | none ↦ (s, err Error.protocol)
  | some e ↦
      if not (is_transfer e) || in_use s.active op
      then (s, err Error.protocol)
      else (record s { active = set_at s.active lane (some (op, e)) }, ok tt)
]

-- A transfer of `count` bytes, of the `length` that its effect asked for.
unfoldable pub transferred :
    Protocol → Lane → Option ℕ → ℕ → List ℕ → Protocol × Result (Unit {0}) Error
unfolding progress
transferred s lane none count buffer = (s, panic)
transferred s lane (some length) count buffer =
    if ltb length count
    then (s, err Error.protocol)
    else elim (checked_add (at s.offsets lane) count) [
      | none ↦ (s, panic)
      | some offset ↦ progress (record s { offsets = set_at s.offsets lane offset }) lane buffer
    ]

-- The completion of the operation of a lane, which is already taken off.
unfoldable pub conclude :
    Protocol → Lane → Effect → IoResult → List ℕ → Protocol × Result (Unit {0}) Error
unfolding transferred
conclude s lane e result buffer = elim s.closed [
  | some _ ↦ (s, ok tt)
  | none ↦ elim result [
    | IoResult.retry ↦ (s, ok tt)
    | IoResult.failed code ↦ (s, err (Error.io code))
    | IoResult.bytes count ↦
        if count == 0 then (s, err Error.closed) else transferred s lane (requested e) count buffer
  ]
]

-- The completion of the operation of a lane, which is taken off.
unfoldable pub complete_on :
    Protocol
    → Lane
    → Option (OpId × Effect)
    → IoResult
    → List ℕ
    → Protocol × Result (Unit {0}) Error
unfolding conclude
complete_on s lane none result buffer = (s, panic)
complete_on s lane (some (id, e)) result buffer =
    conclude (record s { active = set_at s.active lane none }) lane e result buffer

unfoldable pub complete : Protocol → OpId → IoResult → List ℕ → Protocol × Result (Unit {0}) Error
unfolding complete_on
complete s op result buffer = elim (position s.active op) [
  | none ↦ (s, ok tt)
  | some lane ↦ complete_on s lane (at s.active lane) result buffer
]

unfoldable pub provide : Protocol → ℕ → ℕ → Protocol × Result (Unit {0}) Error
unfolding observe_sequence Accountability.admit
provide s sequence length = elim s.closed [
  | some error ↦ (s, err error)
  | none ↦
      if not (is_source s.stage) || ltb length header_bytes || ltb s.capacity length
      then (s, err Error.protocol)
      else let s1 = observe_sequence (record s { sequence = sequence }) sequence in
        (
          record s1 {
            length = length;
            offsets = set_at s1.offsets Lane.data_lane 0;
            credited = false;
            stage = Stage.sending;
            accountability = tell Accountability.admit s1.accountability;
          },
          ok tt,
        )
]

-- The state after an admission.
unfoldable pub admitting : Protocol → Protocol
unfolding Accountability.admit
admitting s = record s {
  previous = some s.sequence;
  accountability = tell Accountability.admit s.accountability;
  credited = true;
  offsets = set_at (set_at s.offsets Lane.credit_send 0) Lane.data_lane 0;
  length = header_bytes;
  stage = Stage.header;
}

unfoldable pub admit_frame : Protocol → Protocol × Result (Unit {0}) Error
unfolding admitting
admit_frame s = elim s.closed [
  | some error ↦ (s, err error)
  | none ↦
      if not (is_admission s.stage) || s.credited
      then (s, err Error.protocol)
      else (admitting s, ok tt)
]

unfoldable pub transition : Protocol → Input → Protocol × Result (Unit {0}) Error
unfolding accept complete provide admit_frame close
transition s Input.revoked = (close s Error.revoked, ok tt)
transition s (Input.closes error) = (close s error, ok tt)
transition s (Input.accepted lane op) = accept s lane op
transition s (Input.completed op result buffer) = complete s op result buffer
transition s (Input.provided sequence length) = provide s sequence length
transition s Input.admitted = admit_frame s

-- `matches!(input, Input::Revoked | Input::Closed(Error::Closed | Error::Revoked))`
abbrev pub cancels : Input → Bool
cancels Input.revoked = true
cancels (Input.closes Error.closed) = true
cancels (Input.closes Error.revoked) = true
cancels _ = false

-- The report of an input on a closed protocol to its history.
unfoldable pub settle : Protocol → Input → Protocol
unfolding Accountability.cancel Accountability.finish
settle s i = record s {
  accountability = elim s.closed [
    | none ↦ s.accountability
    | some error ↦
        tell (λ a. if cancels i then Accountability.cancel a else Accountability.finish a error)
          s.accountability
  ];
}

-- What `input` does with the outcome of `transition`.
unfoldable pub answer :
    Protocol × Result (Unit {0}) Error → Input → Protocol × Result (Unit {0}) Error
unfolding close settle
answer (s, ok done) i = (settle s i, ok tt)
answer (s, err error) i = (settle (close s error) i, err error)
answer (s, panic) i = (s, panic)

unfoldable pub input : Protocol → Input → Protocol × Result (Unit {0}) Error
unfolding transition answer
input s i = answer (transition s i) i

-- The state after a list of inputs.
unfoldable pub run : Protocol → List Input → Protocol
unfolding input
run s [] = s
run s (i ∷ is) = run (input s i).0 is
