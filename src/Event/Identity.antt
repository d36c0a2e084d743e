-- ===== src/Event/Identity.antt =====
-- What the FNV loop of `EventId::from_name` keeps.
use hiway.Prelude.{ℕ, ◌*◌, ◌%◌, ◌^◌, ◌<◌, ◌≡◌, refl, List, [], ◌∷◌, ◌++◌, arith}
use Prim.Native.Nat.{bit_xor}
use hiway.Event.{from_bytes, from_name, offset, prime}

pub from_bytes-lt : (hash : ℕ) (bytes : List ℕ) → hash < 2 ^ 128 → from_bytes hash bytes < 2 ^ 128
unfolding from_bytes
from_bytes-lt hash [] h = h
from_bytes-lt hash (b ∷ bytes) h =
    from_bytes-lt (bit_xor hash b * prime % 2 ^ 128) bytes (omega arith)

-- The hash of a name that is followed by more bytes goes on from the hash of the name.
pub from_bytes-append :
    (hash : ℕ) (front back : List ℕ)
    → from_bytes hash (front ++ back) ≡ from_bytes (from_bytes hash front) back
unfolding from_bytes
from_bytes-append hash [] back = refl
from_bytes-append hash (b ∷ front) back =
    from_bytes-append (bit_xor hash b * prime % 2 ^ 128) front back

-- Every event identity that a name gives is a u128.
pub from_name-lt : (bytes : List ℕ) → from_name bytes < 2 ^ 128
unfolding from_name
from_name-lt bytes = from_bytes-lt offset bytes (omega arith)
