-- ===== src/Stops/Adapters.antt =====
-- src/exits/adapters and the payloads of src/core/broker_payloads.py: how the exit engine's calls
-- reach the brokers. `sent` is the list of the requests made, each answered as a function of that
-- list says.
use trading_os.Common.{String, Option, none, some, List, [], ◌∷◌, ◌++◌, if◌then◌else◌}
use trading_os.Common.Effects.{Result, ok, err, Method, pure, ◌>>=◌}
use trading_os.Float.{Float, nought}
use trading_os.Orders.Record.{Direction, buy, sell, Leg}
use trading_os.Routing.Router.{is_india}
use trading_os.Routing.Request.{OpenalgoPayload, RouteError, openalgo_order_payload}

pub data StopRequest (F : Type 0) : Type 0 where
  order_request : OpenalgoPayload F → StopRequest F
  modify_request : String → String → F → StopRequest F
  cancel_request : String → String → StopRequest F
  position_stop : String → F → F → StopRequest F
  position_modify : String → F → StopRequest F
  position_close : String → F → StopRequest F

-- The answer to a request: an exception, an error status, or the id in the JSON, if there is one.
pub data StopReply : Type 0 where
  no_answer error_status : StopReply
  replied : Option String → StopReply

pub data StopError (F : Type 0) : Type 0 where
  bad_payload : RouteError F → StopError F
  post_failed status_failed : StopError F

pub record StopConfig (F : Type 0) : Type 0 where
  pub apikey : String
  pub algo_id : String
  pub exchange : String
  pub answers : List (StopRequest F) → StopReply

abbrev pub StopMethod : Type 0 → Type 0 → Type 0
StopMethod F A = Method (List (StopRequest F)) (StopError F) A

unfoldable pub closing_action : Direction → Direction
closing_action buy = sell
closing_action sell = buy

-- `str(x)` of what `get` gives
abbrev pub text_of : Option String → String
text_of none = "None"
text_of (some s) = s

module _ {F : Type 0} where
  abbrev pub answered : StopReply → StopMethod F (Option String)
  answered no_answer sent = (err post_failed, sent)
  answered error_status sent = (err status_failed, sent)
  answered (replied o) sent = (ok o, sent)

  abbrev pub post : StopConfig F → StopRequest F → StopMethod F (Option String)
  post cfg r sent = answered (cfg.answers (sent ++ (r ∷ []))) (sent ++ (r ∷ []))

  abbrev pub send_payload :
      StopConfig F → Result (RouteError F) (OpenalgoPayload F) → StopMethod F (Option String)
  send_payload cfg (err e) sent = (err (bad_payload e), sent)
  send_payload cfg (ok p) sent = post cfg (order_request p) sent

module _ {F : Type 0} ⦃fl : Float F⦄ where
  abbrev pub closing_order :
      StopConfig F → String → F → Direction → String → F → StopMethod F (Option String)
  closing_order cfg symbol qty direction pricetype trigger = send_payload cfg (
      openalgo_order_payload cfg.apikey cfg.algo_id cfg.exchange symbol (closing_action direction)
        qty "MIS" pricetype nought trigger)

  -- `IndiaStopAdapter`
  unfoldable pub india_place_stop : StopConfig F → String → F → F → Direction → StopMethod F String
  india_place_stop cfg symbol qty stop_price direction =
      closing_order cfg symbol qty direction "SL-M" stop_price >>= λ o. pure (text_of o)

  unfoldable pub india_modify_stop : StopConfig F → String → F → StopMethod F (Option String)
  india_modify_stop cfg stop_order_id new_price =
      post cfg (modify_request cfg.apikey stop_order_id new_price)

  unfoldable pub india_cancel_stop : StopConfig F → String → StopMethod F (Option String)
  india_cancel_stop cfg stop_order_id = post cfg (cancel_request cfg.apikey stop_order_id)

  unfoldable pub india_replace_stop :
      StopConfig F → String → String → F → F → Direction → StopMethod F String
  unfolding india_cancel_stop india_place_stop
  india_replace_stop cfg old_id symbol qty trigger direction =
      india_cancel_stop cfg old_id >>= λ _. india_place_stop cfg symbol qty trigger direction

  unfoldable pub india_exit_market :
      StopConfig F → String → F → Direction → StopMethod F (Option String)
  india_exit_market cfg symbol qty direction =
      closing_order cfg symbol qty direction "MARKET" nought

  -- `Mt5StopAdapter`
  unfoldable pub mt5_place_stop : StopConfig F → String → F → F → StopMethod F String
  mt5_place_stop cfg symbol qty stop_price =
      post cfg (position_stop symbol qty stop_price) >>= λ o. pure (text_of o)

  unfoldable pub mt5_modify_stop : StopConfig F → String → F → StopMethod F (Option String)
  mt5_modify_stop cfg stop_order_id new_price = post cfg (position_modify stop_order_id new_price)

  unfoldable pub mt5_cancel_stop : StopConfig F → String → StopMethod F (Option String)
  mt5_cancel_stop cfg stop_order_id = post cfg (position_modify stop_order_id nought)

  unfoldable pub mt5_replace_stop : StopConfig F → String → F → StopMethod F String
  mt5_replace_stop cfg old_id trigger =
      post cfg (position_modify old_id trigger) >>= λ _. pure old_id

  unfoldable pub mt5_exit_market : StopConfig F → String → F → StopMethod F (Option String)
  mt5_exit_market cfg symbol qty = post cfg (position_close symbol qty)

  -- `CompositeStopAdapter`
  unfoldable pub place_stop : StopConfig F → String → F → F → Leg → Direction → StopMethod F String
  place_stop cfg symbol qty stop_price leg direction =
      if is_india leg
      then india_place_stop cfg symbol qty stop_price direction
      else mt5_place_stop cfg symbol qty stop_price

  unfoldable pub modify_stop : StopConfig F → String → F → Leg → StopMethod F (Option String)
  modify_stop cfg stop_order_id new_price leg =
      if is_india leg
      then india_modify_stop cfg stop_order_id new_price
      else mt5_modify_stop cfg stop_order_id new_price

  unfoldable pub cancel_stop : StopConfig F → String → Leg → StopMethod F (Option String)
  cancel_stop cfg stop_order_id leg =
      if is_india leg
      then india_cancel_stop cfg stop_order_id
      else mt5_cancel_stop cfg stop_order_id

  unfoldable pub replace_stop :
      StopConfig F → String → String → F → F → Leg → Direction → StopMethod F String
  replace_stop cfg old_id symbol qty trigger leg direction =
      if is_india leg
      then india_replace_stop cfg old_id symbol qty trigger direction
      else mt5_replace_stop cfg old_id trigger

  unfoldable pub exit_market :
      StopConfig F → String → F → Leg → Direction → StopMethod F (Option String)
  exit_market cfg symbol qty leg direction =
      if is_india leg
      then india_exit_market cfg symbol qty direction
      else mt5_exit_market cfg symbol qty
