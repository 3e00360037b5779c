-- ===== src/Webhook.antt =====
-- webhook_handler.py: events of Stripe, commands of Slack and Discord, and generic webhooks.
pub mod Events
pub mod Stripe
pub mod Chat
mod Examples
