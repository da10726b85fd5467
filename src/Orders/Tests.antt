-- ===== src/Orders/Tests.antt =====
-- Runs of src/core/order_state_machine.py on small orders, and the theorems at them.
use mathlib.Core.List.{Memᴰ}
use text.Mathlib.Text.{◌==◌ as str_eq}
use trading_os.Common.{if◌then◌else◌, ◌≡◌, refl, none, some, List, [], ◌∷◌, String, arith}
use trading_os.Common.Effects.{ok, err}
use trading_os.Common.Dict.{lookup, values}
use trading_os.Float.{◌<=F◌, ◌<F◌, ◌==F◌, ◌≤F◌}
use trading_os.Float.Fixed.{Fixed, fixed_float, Fixed-Ieee, whole}
use trading_os.Orders.Record.{
  created, acked, cancelled, unknown, failed_not_placed, buy, sell, india, OrderRecord, transition,
  log, retry_not_allowed,
}
use trading_os.Orders.Methods.{
  absent, mark_sent, on_ack, on_fill, on_cancel, on_timeout, reconcile_unknown,
}
use trading_os.Orders.Machine.{
  OrderStateMachine, Event, send, timed_out, ack, cancel, fill, reconcile, new_record, run_events,
  apply_event, retry_as_new, add_exposure, exposure_from, open_exposure,
}
use trading_os.Orders.Trail.{Chain, history-Chain}
use trading_os.Orders.Legality.{
  terminal_absorbs, retry_needs_absence, ConfirmsAbsence, no_double_order, failed_lookups,
  retry_as_new_lem, IsFreshCopy,
}
use trading_os.Orders.Fills.{WithinOrder, filled_bounded}
use trading_os.Orders.LateFills.{late_fill_books, RaisesIllegal}
use trading_os.Orders.Exposure.{open_exposure-net, net, fills_of}

abbrev t0 : Fixed
t0 = whole 1

abbrev order : OrderRecord Fixed
order = record {
  client_order_id = "a1";
  symbol = "INFY";
  direction = buy;
  requested_qty = whole 10;
  leg = india;
  state = created;
  broker_order_id = none;
  filled_qty = whole 0;
  avg_fill_price = none;
  reject_reason = none;
  history = [];
}

abbrev life : List (Event Fixed)
life =
    send t0
    ∷ ack t0 "B7"
    ∷ fill t0 (whole 4) (whole 100)
    ∷ cancel t0 ""
    ∷ fill t0 (whole 3) (whole 100)
    ∷ []

-- A partial fill, a cancellation, and a late fill that raises and is booked.
life_runs :
    let r = run_events life order in
    (r.state ≡ cancelled) × (r.filled_qty ≡ whole 7) × (r.avg_fill_price ≡ some (whole 100))
unfolding run_events apply_event mark_sent on_ack on_fill on_cancel transition log ◌<F◌ ◌<=F◌ ◌==F◌
life_runs = (refl, refl, refl)

history-Chain_example :
    let r = run_events life (new_record "a1" "INFY" buy (whole 10) india) in
    Chain created r.history r.state
history-Chain_example = history-Chain "a1" "INFY" buy (whole 10) india life

terminal_absorbs_example : (run_events life (record order { state = cancelled })).state ≡ cancelled
terminal_absorbs_example = terminal_absorbs life (record order { state = cancelled }) refl

abbrev lost : List (Event Fixed)
lost = send t0 ∷ timed_out t0 ∷ reconcile t0 absent ∷ []

lost_fails : (run_events lost order).state ≡ failed_not_placed
unfolding run_events apply_event mark_sent on_timeout reconcile_unknown transition log
lost_fails = refl

retry_needs_absence_example : (e : Event Fixed) × Memᴰ e lost × ConfirmsAbsence e
retry_needs_absence_example = retry_needs_absence lost order (λ e. cc) lost_fails

abbrev machine : OrderStateMachine Fixed
machine = record { records = ("a1", record order { filled_qty = whole 4 }) ∷ [] }

abbrev sent_order : OrderRecord Fixed
sent_order = record order { state = acked }

no_double_order_example :
    let s = run_events (timed_out t0 ∷ failed_lookups ((t0, "down") ∷ [])) sent_order in
    (s.state ≡ unknown)
    × (retry_as_new "a2" t0 s machine ≡ (err (retry_not_allowed unknown), machine))
no_double_order_example = no_double_order t0 ((t0, "down") ∷ []) "a2" t0 sent_order machine refl

abbrev dead : OrderRecord Fixed
dead = record order { state = failed_not_placed }

retry_as_new_lem_test :
    (fresh : OrderRecord Fixed) × ((retry_as_new "a2" t0 dead machine).0 ≡ ok fresh)
    × IsFreshCopy "a2" dead fresh
    × ((other : String)
        → lookup other (retry_as_new "a2" t0 dead machine).1.records
          ≡ (if str_eq "a2" other then some fresh else lookup other machine.records))
retry_as_new_lem_test = retry_as_new_lem "a2" t0 dead machine refl

order-WithinOrder : WithinOrder order.requested_qty order.filled_qty
order-WithinOrder = ground arith

filled_bounded_example :
    WithinOrder order.requested_qty (run_events life order).filled_qty
    × (order.filled_qty ≤F (run_events life order).filled_qty)
filled_bounded_example = filled_bounded life order (ground arith) order-WithinOrder

late_fill_books_example :
    let (result, r') = on_fill t0 (whole 3) (whole 100) (record order { state = cancelled }) in
    RaisesIllegal result × (r'.state ≡ cancelled) × (r'.filled_qty ≡ whole 3)
unfolding ◌<F◌ ◌<=F◌ ◌==F◌
late_fill_books_example =
    late_fill_books t0 (whole 3) (whole 100) (record order { state = cancelled })
      (refl, refl, λ e. cc, λ e. cc) refl refl refl

-- 4 bought and 7 sold, and an order without a fill
abbrev both_ways : OrderStateMachine Fixed
both_ways = record {
  records =
      ("a1", record order { filled_qty = whole 4 })
      ∷ ("a2", record order { direction = sell; filled_qty = whole 7 })
      ∷ ("a3", order)
      ∷ [];
}

three_short : lookup "INFY" (open_exposure both_ways) ≡ some (fixed_float.neg (whole 3))
unfolding open_exposure exposure_from add_exposure ◌<F◌
three_short = refl

open_exposure-net_example :
    lookup "INFY" (open_exposure both_ways) ≡ net none (fills_of "INFY" (values both_ways.records))
open_exposure-net_example = open_exposure-net both_ways "INFY"
