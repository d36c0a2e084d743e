-- ===== src/Event.antt =====
-- hiway/src/event.rs: event identities and delivery semantics.
pub mod Identity
pub mod Order
use hiway.Prelude.{
  ℕ, ◌+◌, ◌*◌, ◌%◌, ◌^◌, Bool, true, false, Option, none, some, List, [], ◌∷◌, ltb, ◌==◌,
  checked_add,
}
use Prim.Native.Nat.{bit_xor}

-- `EventId(u128)`; `as_u128` and `from_u128` are the identity.
abbrev pub EventId : Type 0
EventId = ℕ

abbrev pub offset : ℕ
offset = 0x6c62272e07bb014262b821756295c58d

abbrev pub prime : ℕ
prime = 0x0000000001000000000000000000013b

-- The loop of `from_name` over the bytes of the name that are left.
pub from_bytes : ℕ → List ℕ → ℕ
from_bytes hash [] = hash
from_bytes hash (byte ∷ bytes) = from_bytes (bit_xor hash byte * prime % 2 ^ 128) bytes

-- FNV-1a-128 over the bytes of the name.
pub from_name : List ℕ → EventId
from_name bytes = from_bytes offset bytes

pub data Delivery : Type 0 where
  ordered latest : Delivery

-- Whether `next` may follow `previous` on a stream of this delivery.
unfoldable pub follows : Delivery → ℕ → ℕ → Bool
follows ordered previous next = elim (checked_add previous 1) [
  | none ↦ false
  | some expected ↦ expected == next
]
follows latest previous next = ltb previous next
