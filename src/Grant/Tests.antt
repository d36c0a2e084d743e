-- ===== src/Grant/Tests.antt =====
-- A partition of concrete limits.
use hiway.Prelude.{◌≡◌, refl, List, [], ◌∷◌, ok}
use hiway.Grant.{
  Limits, Permission, partition, partition_from, partition_step, reserve, zero_limits, observe,
  required,
}
use hiway.Grant.Partition.{Splits, firsts, partition-Splits}

abbrev limits : Limits
limits = record zero_limits { subscriptions = 6; retained_items = 20; waiters = 9; bytes = 100 }

-- Two events, the first with two permissions.
abbrev permissions : List Permission
permissions =
    record {
      event = 1;
      rights = observe;
      limits = record { retained_items = 8; subscriptions = 2; waiters = 3 };
    }
    ∷ record {
      event = 2;
      rights = observe;
      limits = record { retained_items = 4; subscriptions = 1; waiters = 1 };
    }
    ∷ record {
      event = 1;
      rights = required;
      limits = record { retained_items = 8; subscriptions = 2; waiters = 3 };
    }
    ∷ []

abbrev left : Limits
left = record zero_limits { subscriptions = 3; retained_items = 8; waiters = 5; bytes = 100 }

partition-left : partition limits permissions ≡ ok left
unfolding partition partition_from partition_step reserve
partition-left = refl

partition-Splits_example : Splits limits (firsts [] permissions) left
partition-Splits_example = partition-Splits limits left permissions partition-left
