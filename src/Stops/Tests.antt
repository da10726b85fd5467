-- ===== src/Stops/Tests.antt =====
-- A stop for a long position in India, and the theorem at it.
use trading_os.Common.{◌≡◌, refl, true, none, []}
use trading_os.Common.Effects.{ok, err}
use trading_os.Float.{◌==F◌}
use trading_os.Float.Fixed.{Fixed, fixed_float, whole, nano}
use trading_os.Orders.Record.{buy, india}
use trading_os.Routing.Request.{openalgo_order_payload, fractional_quantity}
use trading_os.Stops.Adapters.{
  StopConfig, replied, bad_payload, closing_action, place_stop, india_place_stop,
}
use trading_os.Stops.Legs.{placing, sent_by, AddsFitting, requests_fit_leg}

abbrev cfg : StopConfig Fixed
cfg = record { apikey = "key"; algo_id = "algo"; exchange = "NSE"; answers = λ sent. replied none }

-- A reply without an id makes the id "None".
missing_id : (place_stop cfg "TCS" (whole 10) (whole 95) india buy []).0 ≡ ok "None"
unfolding place_stop india_place_stop openalgo_order_payload closing_action ◌==F◌
missing_id = refl

-- A part of a share is not sent.
fraction_refused :
    place_stop cfg "TCS" (nano 620000000) (whole 95) india buy []
    ≡ (err (bad_payload fractional_quantity), [])
unfolding place_stop india_place_stop openalgo_order_payload closing_action ◌==F◌
fraction_refused = refl

requests_fit_leg_example :
    AddsFitting true [] (sent_by cfg india (placing "TCS" (whole 10) (whole 95) buy) [])
requests_fit_leg_example = requests_fit_leg cfg india (placing "TCS" (whole 10) (whole 95) buy) []
