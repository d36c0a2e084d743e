-- ===== src/Errors.antt =====
-- hiway/src/error.rs: the failures of topics, senders and receivers.
use hiway.Prelude.{◌≡◌, refl}
use hiway.Event.{EventId}

pub data TopicError : Type 0 where
  contended : TopicError
  type_mismatch : EventId → TopicError
  capacity denied revoked invalid_config : TopicError

pub data CloseReason : Type 0 where
  closed revoked disconnected : CloseReason

pub data TrySendError {ℓ} (T : Type ℓ) : Type ℓ where
  full contended maintenance_required closed revoked : T → TrySendError T
  waiters_full sequence_exhausted : T → TrySendError T

pub data SendError {ℓ} (T : Type ℓ) : Type ℓ where
  closed revoked waiters_full sequence_exhausted : T → SendError T

pub data ReceiveError : Type 0 where
  contended : ReceiveError
  closed : CloseReason → ReceiveError
  waiters_full : ReceiveError

-- `error.into_inner()`: every rejection carries the payload.
unfoldable pub into_inner {ℓ} : {T : Type ℓ} → TrySendError T → T
into_inner (TrySendError.full v) = v
into_inner (TrySendError.contended v) = v
into_inner (TrySendError.maintenance_required v) = v
into_inner (TrySendError.closed v) = v
into_inner (TrySendError.revoked v) = v
into_inner (TrySendError.waiters_full v) = v
into_inner (TrySendError.sequence_exhausted v) = v

-- `error.map(f)`
unfoldable pub map_error {ℓ κ} :
    {T : Type ℓ} {U : Type κ} → (T → U) → TrySendError T → TrySendError U
map_error f (TrySendError.full v) = TrySendError.full (f v)
map_error f (TrySendError.contended v) = TrySendError.contended (f v)
map_error f (TrySendError.maintenance_required v) = TrySendError.maintenance_required (f v)
map_error f (TrySendError.closed v) = TrySendError.closed (f v)
map_error f (TrySendError.revoked v) = TrySendError.revoked (f v)
map_error f (TrySendError.waiters_full v) = TrySendError.waiters_full (f v)
map_error f (TrySendError.sequence_exhausted v) = TrySendError.sequence_exhausted (f v)

pub into_inner-map_error {ℓ κ} :
    {T : Type ℓ} {U : Type κ} (f : T → U) (e : TrySendError T)
    → into_inner (map_error f e) ≡ f (into_inner e)
unfolding into_inner map_error
into_inner-map_error f (TrySendError.full v) = refl
into_inner-map_error f _ = refl
