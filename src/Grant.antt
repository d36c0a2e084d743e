-- ===== src/Grant.antt =====
-- hiway/src/grant.rs: the allowances and permissions of a grant, and the partition of its limits.
pub mod Partition
pub mod Admission
pub mod Charge
pub mod Containment
pub mod Tree
mod Tests
use hiway.Prelude.{
  ℕ, ◌+◌, ◌^◌, ◌-◌, ◌*◌, ◌≡◌, refl, Bool, true, false, not, ◌&&◌, ◌||◌, Option, none, some, List,
  [], ◌∷◌, ◌++◌, ◌==◌, ltb, if◌then◌else◌, any, Result, ok, err, panic, checked_sub, bit_and,
  bit_or,
}
use hiway.Event.{EventId}
use hiway.Errors.{TopicError}

pub record Limits : Type 0 where
  pub streams : ℕ
  pub grants : ℕ
  pub subscriptions : ℕ
  pub retained_items : ℕ
  pub waiters : ℕ
  pub connections : ℕ
  pub bytes : ℕ

-- `Limits::ZERO`
abbrev pub zero_limits : Limits
zero_limits = record {
  streams = 0;
  grants = 0;
  subscriptions = 0;
  retained_items = 0;
  waiters = 0;
  connections = 0;
  bytes = 0;
}

abbrev pub isize_max : ℕ
isize_max = 2 ^ 63 - 1

abbrev pub values : Limits → List ℕ
values l =
    l.streams ∷ l.grants ∷ l.subscriptions ∷ l.retained_items ∷ l.waiters ∷ l.connections ∷ l.bytes
    ∷ []

-- The array of seven; another length stands for none.
unfoldable from_values : List ℕ → Option Limits
from_values (a ∷ b ∷ c ∷ d ∷ e ∷ f ∷ g ∷ []) = some (record {
  streams = a;
  grants = b;
  subscriptions = c;
  retained_items = d;
  waiters = e;
  connections = f;
  bytes = g;
})
from_values _ = none

from_values-values : (l : Limits) → from_values (values l) ≡ some l
unfolding from_values
from_values-values l = refl

-- `Limits::default()`
abbrev pub default_limits : Limits
default_limits = record {
  streams = 64;
  grants = 128;
  subscriptions = 1024;
  retained_items = 65536;
  waiters = 4096;
  connections = 64;
  bytes = 64 * 1024 * 1024;
}

unfoldable pub validate : Limits → Result (Unit {0}) TopicError
validate l =
    if any (λ value. ltb isize_max value) (values l) then err TopicError.invalid_config else ok tt

-- The bits of a u8.
abbrev pub Rights : Type 0
Rights = ℕ

abbrev pub publish : Rights
publish = 1

abbrev pub observe : Rights
observe = 2

abbrev pub required : Rights
required = 4

unfoldable pub union : Rights → Rights → Rights
union a b = bit_or a b

unfoldable pub contains : Rights → Rights → Bool
contains a b = bit_and a b == b

pub record StreamLimits : Type 0 where
  pub retained_items : ℕ
  pub subscriptions : ℕ
  pub waiters : ℕ

unfoldable pub as_limits : StreamLimits → Limits
as_limits l = record zero_limits {
  retained_items = l.retained_items;
  subscriptions = l.subscriptions;
  waiters = l.waiters;
}

pub record Permission : Type 0 where
  pub event : EventId
  pub rights : Rights
  pub limits : StreamLimits

-- `StreamLimits::ZERO`
abbrev pub zero_stream_limits : StreamLimits
zero_stream_limits = record { retained_items = 0; subscriptions = 0; waiters = 0 }

-- `Permission::new` for an event, and `with_limits`
unfoldable pub permission : EventId → Rights → Permission
permission event rights = record { event = event; rights = rights; limits = zero_stream_limits }

unfoldable pub with_limits : Permission → StreamLimits → Permission
with_limits p limits = record p { limits = limits }

-- `previous.limits != permission.limits`, negated
abbrev pub same_limits : StreamLimits → StreamLimits → Bool
same_limits a b =
    a.retained_items == b.retained_items
    && a.subscriptions == b.subscriptions
    && a.waiters == b.waiters

-- `permissions[..index].iter().find(|entry| entry.event == permission.event)`
abbrev pub find_event : List Permission → EventId → Option Permission
find_event [] event = none
find_event (p ∷ ps) event = if p.event == event then some p else find_event ps event

-- The three checked subtractions for an event that comes for the first time.
unfoldable pub reserve : Limits → StreamLimits → Result Limits TopicError
reserve generic l = elim (checked_sub generic.retained_items l.retained_items) [
  | none ↦ err TopicError.capacity
  | some retained_items ↦ elim (checked_sub generic.subscriptions l.subscriptions) [
    | none ↦ err TopicError.capacity
    | some subscriptions ↦ elim (checked_sub generic.waiters l.waiters) [
      | none ↦ err TopicError.capacity
      | some waiters ↦ ok (record generic {
        retained_items = retained_items;
        subscriptions = subscriptions;
        waiters = waiters;
      })
    ]
  ]
]

-- What one permission does to the limits that are left, by the earlier permission for its event.
unfoldable pub partition_step : Limits → Permission → Option Permission → Result Limits TopicError
unfolding reserve
partition_step generic p none = reserve generic p.limits
partition_step generic p (some previous) =
    if same_limits previous.limits p.limits then ok generic else err TopicError.invalid_config

-- The loop of `partition`, with the permissions before and from the index.
unfoldable pub partition_from :
    List Permission → Result Limits TopicError → List Permission → Result Limits TopicError
unfolding partition_step
partition_from before (ok generic) [] = ok generic
partition_from before (ok generic) (p ∷ ps) =
    partition_from (before ++ p ∷ []) (partition_step generic p (find_event before p.event)) ps
partition_from before (err e) ps = err e
partition_from before panic ps = panic

unfoldable pub partition : Limits → List Permission → Result Limits TopicError
unfolding partition_from
partition limits permissions = partition_from [] (ok limits) permissions
