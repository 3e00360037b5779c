-- ===== src/Webhook/Examples.antt =====
-- Runs of the endpoint of Stripe with the sample server.
use mathlib.Core.Path.{subst}
use mathlib.Core.Option.{some-injective}
use ai_chat_bot_v.Base.{◌≡◌, refl, Bool, true, false, none, some, String, [], ◌∷◌}
use ai_chat_bot_v.RedisClient.{Client}
use ai_chat_bot_v.RedisClient.Exclusive.{Exclusive}
use ai_chat_bot_v.RedisClient.Sample.{sample, contents, sample_exclusive}
use ai_chat_bot_v.Webhook.Stripe.{
  User, StripeEvent, Prices, Database, already_processed, success, handle_event,
}
use ai_chat_bot_v.Webhook.Stripe.Delivery.{receive, stripe_redelivery}
use ai_chat_bot_v.Webhook.Stripe.Customers.{handle_all, Unknown, Foreign, subscriptions_never_end}

abbrev prices : Prices
prices = record { enterprise_price_id = some "price_e"; pro_price_id = some "price_p" }

abbrev ann : String → User
ann tier = record { id = "ann"; tier = tier; is_deleted = false }

abbrev tables : String → Database
tables tier = record { users = ann tier ∷ []; works = true }

abbrev checkout : StripeEvent
checkout = record {
  event_id = "evt_1";
  event_type = "checkout.session.completed";
  object = record {
    client_reference_id = some "ann";
    customer = some "cus_1";
    prices = [];
    amount_paid = some 0;
  };
}

abbrev cancellation : StripeEvent
cancellation = record {
  event_id = "evt_2";
  event_type = "customer.subscription.deleted";
  object = record {
    client_reference_id = none;
    customer = some "cus_1";
    prices = [];
    amount_paid = some 0;
  };
}

abbrev client : Bool → Client sample
client up = record { connected = up; server = contents up }

abbrev exclusive : Exclusive sample
exclusive = record { taken = sample_exclusive }

-- A checkout makes its user a subscriber.
checkout_upgrades : handle_event prices checkout (tables "free") ≡ some (tables "pro")
unfolding handle_event
checkout_upgrades = refl

stripe_redelivery_example :
    ((receive sample prices checkout (tables "free", client true)).0 ≡ success)
    × ((receive sample prices checkout (tables "free", client true)).1.0 ≡ tables "pro")
    × ((receive sample prices checkout
          (receive sample prices checkout (tables "free", client true)).1).0
        ≡ already_processed)
    × ((receive sample prices checkout
          (receive sample prices checkout (tables "free", client true)).1).1.0
        ≡ (receive sample prices checkout (tables "free", client true)).1.0)
unfolding handle_event
stripe_redelivery_example =
    stripe_redelivery sample prices checkout (tables "free") (client true) exclusive refl refl

-- The id of the customer is no user's.
cancellation-Foreign : Foreign (tables "pro") cancellation
cancellation-Foreign = record {
  no_checkout = refl;
  no_user = λ customer e.
      subst (λ x. Unknown x (tables "pro").users) (some-injective "cus_1" customer e) (refl, tt);
}

subscriptions_never_end_example :
    handle_all prices (cancellation ∷ []) (tables "pro") ≡ tables "pro"
subscriptions_never_end_example =
    subscriptions_never_end prices (cancellation ∷ []) (tables "pro") (cancellation-Foreign, tt)
