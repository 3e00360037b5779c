-- ===== src/Webhook/Stripe/Customers.antt =====
-- Subscriptions are looked for by the wrong key: the customer's id, among the ids of the users.
use ai_chat_bot_v.Base.{
  ℕ, ◌≡◌, refl, false, Option, none, some, List, [], ◌∷◌, All, String, str_eq, Bool-cases, inl, inr,
}
use ai_chat_bot_v.Webhook.Stripe.{
  User, StripeObject, StripeEvent, Prices, Database, Handled, set_tier, update_tier, with_name,
  has_id, tier_of_prices, handle_event, handle_subscription_updated, handle_subscription_cancelled,
  handle_payment_succeeded, handle_payment_failed,
}

-- No user has the id.
abbrev pub Unknown : String → List User → Type 0
Unknown customer = All (λ u. str_eq u.id customer ≡ false)

set_tier-Unknown :
    (customer tier : String) (us : List User)
    → Unknown customer us
    → set_tier (has_id customer) tier us ≡ us
unfolding set_tier
set_tier-Unknown customer tier [] h = refl
set_tier-Unknown customer tier (u ∷ us) h = rw (h.0, set_tier-Unknown customer tier us h.1)

-- The state that a delivery leaves: that of before if the handler raises.
abbrev pub kept : Database → Handled → Database
kept db none = db
kept db (some db') = db'

update_tier-Unknown :
    (customer tier : String) (db : Database)
    → Unknown customer db.users
    → kept db (update_tier (has_id customer) tier db) ≡ db
update_tier-Unknown customer tier db h = elim (Bool-cases db.works) [
  | inl works ↦ rw (works, set_tier-Unknown customer tier db.users h)
  | inr fails ↦ rw fails
]

-- The events that are handled in their order.
pub handle_all : Prices → List StripeEvent → Database → Database
handle_all prices [] db = db
handle_all prices (e ∷ es) db = handle_all prices es (kept db (handle_event prices e db))

-- An event that is no checkout, and whose customer, if it names one, is no user's id.
pub record Foreign (db : Database) (e : StripeEvent) : Type 0 where
  pub no_checkout : str_eq e.event_type "checkout.session.completed" ≡ false
  pub no_user : (customer : String) → e.object.customer ≡ some customer → Unknown customer db.users

customer_handled :
    (o : Option String) (tier : String) (db : Database)
    → ((customer : String) → o ≡ some customer → Unknown customer db.users)
    → kept db (with_name o (some db) (λ customer. update_tier (has_id customer) tier db)) ≡ db
customer_handled none tier db h = refl
customer_handled (some customer) tier db h = elim (Bool-cases (str_eq customer "")) [
  | inl blank ↦ rw blank
  | inr named ↦ rw named (update_tier-Unknown customer tier db (h customer refl))
]

paid-same : (o : StripeObject) (db : Database) → kept db (handle_payment_succeeded o db) ≡ db
unfolding handle_payment_succeeded
paid-same o db =
    elim o.amount_paid
      as (λ (a : Option ℕ). kept db (elim a [ none ↦ none | some amount ↦ some db ]) ≡ db) [
        | none ↦ refl
        | some amount ↦ refl
      ]

failed-same : (o : StripeObject) (db : Database) → kept db (handle_payment_failed o db) ≡ db
unfolding handle_payment_failed
failed-same o db = refl

handle_event-Foreign :
    (prices : Prices) (e : StripeEvent) (db : Database)
    → Foreign db e
    → kept db (handle_event prices e db) ≡ db
unfolding handle_event handle_subscription_updated handle_subscription_cancelled
handle_event-Foreign prices e db f =
    let updated =
      customer_handled e.object.customer (tier_of_prices prices "free" e.object.prices) db
        f.no_user in
    let deleted = customer_handled e.object.customer "free" db f.no_user in
    rw f.no_checkout (elim (Bool-cases (str_eq e.event_type "customer.subscription.updated")) [
      | inl t ↦ rw t updated
      | inr n ↦ elim (Bool-cases (str_eq e.event_type "customer.subscription.deleted")) [
        | inl t ↦ rw (n, t) deleted
        | inr m ↦ elim (Bool-cases (str_eq e.event_type "invoice.payment_succeeded")) [
          | inl t ↦ rw (n, m, t) (paid-same e.object db)
          | inr k ↦ elim (Bool-cases (str_eq e.event_type "invoice.payment_failed")) [
            | inl t ↦ rw (n, m, k, t) (failed-same e.object db)
            | inr l ↦ rw (n, m, k, l)
          ]
        ]
      ]
    ])

-- As long as no user's id is the id of a customer of Stripe, no change and no end of a subscription
-- changes any user's tier: one who has cancelled keeps the tier that was paid for.
pub subscriptions_never_end :
    (prices : Prices) (es : List StripeEvent) (db : Database)
    → All (Foreign db) es
    → handle_all prices es db ≡ db
unfolding handle_all
subscriptions_never_end prices [] db h = refl
subscriptions_never_end prices (e ∷ es) db h =
    rw (handle_event-Foreign prices e db h.0) (subscriptions_never_end prices es db h.1)
