-- ===== src/Examples/Bus.antt =====
-- The theorems about the bus (internal/bus) at a bus of two subscriptions.
use go_claw.Common.{refl, true, List, [], ◌∷◌, map, count_if, arith}
use go_claw.Bus.Model.{Event, Subscription, Bus, publish}
use go_claw.Bus.Delivery.{deliver, is_lost, Delivers, publish-Delivers}
use go_claw.Bus.Runs.{Op, subscribe_op, publish_op, receive_op}
use go_claw.Bus.Fifo.{Reads, run-Reads}

abbrev event : Event
event = record { topic = "task.failed"; payload = "p" }

abbrev tasks : Subscription
tasks = record { id = 1; prefix = "task."; ch = event ∷ [] }

abbrev plans : Subscription
plans = record { id = 2; prefix = "plan."; ch = [] }

abbrev bus : Bus
bus = record {
  subs = plans ∷ tasks ∷ [];
  next_id = 2;
  has_logger = true;
  dropped_events = 0;
  last_drop_warning = 0;
  warnings = [];
}

abbrev ops : List Op
ops = publish_op event ∷ receive_op 1 ∷ subscribe_op "plan." ∷ publish_op event ∷ []

publish-Delivers_example :
    Delivers bus
      (map (deliver event) bus.subs)
      (count_if (is_lost event) bus.subs)
      (publish event bus)
publish-Delivers_example = publish-Delivers event bus

run-Reads_example : Reads 1 ops bus tasks
run-Reads_example = run-Reads 1 ops bus tasks (omega arith) tt refl
