-- ===== src/Webhook/Stripe.antt =====
-- webhook_handler.py: the endpoint of Stripe and the handlers of its events. `User` of database.py
-- has no column `stripe_customer_id`, so that the customer of an event is looked for among the ids.
pub mod Delivery
pub mod Customers
use ai_chat_bot_v.Base.{
  ℕ, Bool, true, false, not, ◌&&◌, Option, none, some, List, [], ◌∷◌, String, str_eq, if◌then◌else◌,
}
use ai_chat_bot_v.RedisClient.{Client}
use ai_chat_bot_v.RedisClient.Server.{RedisServer}
use ai_chat_bot_v.Webhook.Events.{is_event_processed}

-- What the handlers read and write of a user.
pub record User : Type 0 where
  pub id : String
  pub tier : String
  pub is_deleted : Bool

-- `event["data"]["object"]`: the keys that the handlers read, and the price ids of the items. An amount
-- that is missing is 0, and one that is null is `none`.
pub record StripeObject : Type 0 where
  pub client_reference_id : Option String
  pub customer : Option String
  pub prices : List (Option String)
  pub amount_paid : Option ℕ

pub record StripeEvent : Type 0 where
  pub event_id : String
  pub event_type : String
  pub object : StripeObject

-- The prices that the environment names.
pub record Prices : Type 0 where
  pub enterprise_price_id : Option String
  pub pro_price_id : Option String

-- The tables, and whether a session of the database works; one that does not raises.
pub record Database : Type 0 where
  pub users : List User
  pub works : Bool

-- What a handler leaves, or that it raises.
abbrev pub Handled : Type 0
Handled = Option Database

-- `user.tier = tier`, for the first user that passes the filter.
unfoldable pub set_tier : (User → Bool) → String → List User → List User
set_tier p tier [] = []
set_tier p tier (u ∷ us) = if p u then record u { tier = tier } ∷ us else u ∷ set_tier p tier us

-- A session in which the tier of the user that the filter finds is set, if there is one.
abbrev pub update_tier : (User → Bool) → String → Database → Handled
update_tier p tier db =
    if db.works then some (record db { users = set_tier p tier db.users }) else none

-- `if not x: return`
abbrev with_name : Option String → Handled → (String → Handled) → Handled
with_name none otherwise f = otherwise
with_name (some x) otherwise f = if str_eq x "" then otherwise else f x

abbrev pub is_live : String → User → Bool
is_live id u = str_eq u.id id && not u.is_deleted

unfoldable pub handle_checkout_completed : StripeObject → Database → Handled
unfolding set_tier
handle_checkout_completed o db =
    with_name o.client_reference_id (some db) (λ id. update_tier (is_live id) "pro" db)

-- `price and id == price`
abbrev pub is_price : Option String → Option String → Bool
is_price (some price) (some id) = not (str_eq price "") && str_eq id price
is_price price id = false

-- The loop over the items, which an enterprise price ends.
unfoldable pub tier_of_prices : Prices → (new_tier : String) → List (Option String) → String
tier_of_prices prices new_tier [] = new_tier
tier_of_prices prices new_tier (id ∷ ids) =
    let rest =
      tier_of_prices prices (if is_price prices.pro_price_id id then "pro" else new_tier) ids in
    if is_price prices.enterprise_price_id id then "enterprise" else rest

abbrev pub has_id : String → User → Bool
has_id customer u = str_eq u.id customer

-- A tier that is the new one already is written again here, which changes nothing.
unfoldable pub handle_subscription_updated : Prices → StripeObject → Database → Handled
unfolding set_tier tier_of_prices
handle_subscription_updated prices o db =
    with_name o.customer (some db)
      (λ customer. update_tier (has_id customer) (tier_of_prices prices "free" o.prices) db)

unfoldable pub handle_subscription_cancelled : StripeObject → Database → Handled
unfolding set_tier
handle_subscription_cancelled o db =
    with_name o.customer (some db) (λ customer. update_tier (has_id customer) "free" db)

-- The handlers of the payments only log; null divided by 100 raises.
unfoldable pub handle_payment_succeeded : StripeObject → Database → Handled
handle_payment_succeeded o db = elim o.amount_paid [ none ↦ none | some amount ↦ some db ]

unfoldable pub handle_payment_failed : StripeObject → Database → Handled
handle_payment_failed o db = some db

-- The table of handlers; a type with no handler does nothing.
unfoldable pub handle_event : Prices → StripeEvent → Database → Handled
unfolding handle_checkout_completed handle_subscription_updated handle_subscription_cancelled
    handle_payment_succeeded handle_payment_failed
handle_event prices e db =
    if str_eq e.event_type "checkout.session.completed"
    then handle_checkout_completed e.object db
    else if str_eq e.event_type "customer.subscription.updated"
    then handle_subscription_updated prices e.object db
    else if str_eq e.event_type "customer.subscription.deleted"
    then handle_subscription_cancelled e.object db
    else if str_eq e.event_type "invoice.payment_succeeded"
    then handle_payment_succeeded e.object db
    else if str_eq e.event_type "invoice.payment_failed"
    then handle_payment_failed e.object db
    else some db

-- The answers of the endpoint, with their status codes.
pub data StripeAnswer : Type 0 where
  not_configured : StripeAnswer
  missing_signature : StripeAnswer
  invalid_payload : StripeAnswer
  invalid_signature : StripeAnswer
  already_processed : StripeAnswer
  error_handled : StripeAnswer
  success : StripeAnswer

abbrev pub status_code : StripeAnswer → ℕ
status_code not_configured = 503
status_code missing_signature = 400
status_code invalid_payload = 400
status_code invalid_signature = 400
status_code already_processed = 200
status_code error_handled = 200
status_code success = 200

-- What `stripe.Webhook.construct_event` makes of the payload and the header.
pub data Construction : Type 0 where
  event : StripeEvent → Construction
  value_error : Construction
  other_error : Construction

-- A request: whether the header `Stripe-Signature` is there, and what becomes of it.
pub record StripeRequest : Type 0 where
  pub has_signature : Bool
  pub construction : Construction

module _ (redis : RedisServer) (has_redis : Bool) (configured : Bool) (prices : Prices) where
  abbrev pub State : Type 0
  State = Database × Client redis

  -- What the endpoint answers after the handler.
  abbrev pub answer_of : Handled → Database → StripeAnswer × Database
  answer_of none db = (error_handled, db)
  answer_of (some db') db = (success, db')

  -- From the check of the event's id on.
  unfoldable pub process_event : StripeEvent → State → StripeAnswer × State
  unfolding handle_event
  process_event e (db, c) =
      let (seen, c') = is_event_processed redis has_redis e.event_id "stripe" c in
      elim seen [
        | true ↦ (already_processed, (db, c'))
        | false ↦ let (answer, db') = answer_of (handle_event prices e db) db in (answer, (db', c'))
      ]

  unfoldable pub stripe_webhook : StripeRequest → State → StripeAnswer × State
  unfolding process_event
  stripe_webhook r st =
      if not configured
      then (not_configured, st)
      else if not r.has_signature
      then (missing_signature, st)
      else (elim r.construction [
        | value_error ↦ (invalid_payload, st)
        | other_error ↦ (invalid_signature, st)
        | event e ↦ process_event e st
      ])
