-- ===== src/Webhook/Stripe/Delivery.antt =====
-- What becomes of an event of Stripe that is delivered: once while Redis is reached, and never while
-- it is not.
use mathlib.Core.Path.{subst}
use ai_chat_bot_v.Base.{◌≡◌, refl, sym, ap, ◌∙◌, Bool, true, false, some, String}
use ai_chat_bot_v.Base.Int.{pos}
use ai_chat_bot_v.RedisClient.{Client, ret}
use ai_chat_bot_v.RedisClient.Exclusive.{Exclusive, marked, set_linked}
use ai_chat_bot_v.RedisClient.Outage.{set_down}
use ai_chat_bot_v.RedisClient.Server.{reply, number, RedisServer, IsDown}
use ai_chat_bot_v.Webhook.Events.{is_event_processed, event_key, already_there}
use ai_chat_bot_v.Webhook.Stripe.{
  Prices, Database, StripeEvent, StripeRequest, StripeAnswer, already_processed, event,
  handle_event, process_event, stripe_webhook, answer_of,
}

module _ (redis : RedisServer) (prices : Prices) where
  -- What is seen of an event's id decides whether it is handled.
  process_event_new :
      (e : StripeEvent) (db : Database) (c c' : Client redis)
      → is_event_processed redis true e.event_id "stripe" c ≡ (false, c')
      → process_event redis true true prices e (db, c) ≡ (
        (answer_of redis true true prices (handle_event prices e db) db).0,
        ((answer_of redis true true prices (handle_event prices e db) db).1, c'),
      )
  unfolding process_event
  process_event_new e db c c' new = simp (process_event, new)

  process_event_seen :
      (e : StripeEvent) (db : Database) (c c' : Client redis)
      → is_event_processed redis true e.event_id "stripe" c ≡ (true, c')
      → process_event redis true true prices e (db, c) ≡ (already_processed, (db, c'))
  unfolding process_event
  process_event_seen e db c c' seen = simp (process_event, seen)

  is_event_processed_linked :
      (id : String) (c : Client redis) (linked : c.connected ≡ true) (b : Bool)
      → (redis.set (event_key id "stripe") (number (pos 1)) (some 86_400) true c.server).0 ≡ reply b
      → is_event_processed redis true id "stripe" c ≡ (
        already_there (ret b),
        marked redis c linked (event_key id "stripe") (number (pos 1)) 86_400,
      )
  unfolding is_event_processed
  is_event_processed_linked id c linked b e =
      rw (set_linked redis c linked (event_key id "stripe") (number (pos 1)) 86_400 b e)

  module _ (e : StripeEvent) (db : Database) (c : Client redis) where
    abbrev key : String
    key = event_key e.event_id "stripe"

    process_event_twice :
        Exclusive redis
        → c.connected ≡ true
        → (redis.set key (number (pos 1)) (some 86_400) true c.server).0 ≡ reply true
        → let first = process_event redis true true prices e (db, c) in
          let second = process_event redis true true prices e first.1 in
          (first.0 ≡ (answer_of redis true true prices (handle_event prices e db) db).0)
          × (first.1.0 ≡ (answer_of redis true true prices (handle_event prices e db) db).1)
          × (second.0 ≡ already_processed)
          × (second.1.0 ≡ first.1.0)
    process_event_twice exclusive linked new =
        let here = marked redis c linked key (number (pos 1)) 86_400 in
        let first =
          process_event_new e db c here (is_event_processed_linked e.event_id c linked true new) in
        let db' = (answer_of redis true true prices (handle_event prices e db) db).1 in
        let there : Client redis = marked redis here refl key (number (pos 1)) 86_400 in
        let again = process_event_seen e db' here there (
          is_event_processed_linked e.event_id here refl false
            (exclusive.taken key (number (pos 1)) 86_400 86_400 c.server new)) in
        let second =
          subst
            (λ x. process_event redis true true prices e x.1 ≡ (already_processed, (db', there)))
            (sym first) again in
        (
          ap (λ x. x.0) first,
          ap (λ x. x.1.0) first,
          ap (λ x. x.0) second,
          ap (λ x. x.1.0) second ∙ sym (ap (λ x. x.1.0) first),
        )

-- A request with a signature that Stripe's library accepts.
abbrev pub delivery : StripeEvent → StripeRequest
delivery e = record { has_signature = true; construction = event e }

-- The endpoint with a client of Redis, its keys set.
abbrev pub receive :
    (redis : RedisServer) (prices : Prices)
    → StripeEvent
    → Database × Client redis
    → StripeAnswer × (Database × Client redis)
receive redis prices e = stripe_webhook redis true true prices (delivery e)

-- On a connected client of a Redis with an exclusive `SET NX`, an event whose key is free is handled
-- once: the first delivery does what the handler does, or leaves the tables as they are if the
-- handler raises; the second is answered as already processed and leaves the tables as they are.
pub stripe_redelivery :
    (redis : RedisServer) (prices : Prices) (e : StripeEvent) (db : Database) (c : Client redis)
    → Exclusive redis
    → c.connected ≡ true
    → (redis.set (event_key e.event_id "stripe") (number (pos 1)) (some 86_400) true c.server).0
      ≡ reply true
    → ((receive redis prices e (db, c)).0
        ≡ (answer_of redis true true prices (handle_event prices e db) db).0)
      × ((receive redis prices e (db, c)).1.0
          ≡ (answer_of redis true true prices (handle_event prices e db) db).1)
      × ((receive redis prices e (receive redis prices e (db, c)).1).0 ≡ already_processed)
      × ((receive redis prices e (receive redis prices e (db, c)).1).1.0
          ≡ (receive redis prices e (db, c)).1.0)
unfolding stripe_webhook
stripe_redelivery redis prices e db c exclusive linked new =
    process_event_twice redis prices e db c exclusive linked new

-- While Redis cannot be reached, every event that Stripe signs is answered with 200 as already
-- processed and changes nothing, though it was never handled.
pub stripe_unheard :
    (redis : RedisServer) (prices : Prices) (e : StripeEvent) (db : Database) (c : Client redis)
    → IsDown redis c.server
    → receive redis prices e (db, c) ≡ (already_processed, (db, c))
unfolding stripe_webhook is_event_processed
stripe_unheard redis prices e db c d =
    process_event_seen redis prices e db c c
      (rw (set_down redis c d (event_key e.event_id "stripe") (number (pos 1)) (some 86_400) true))
