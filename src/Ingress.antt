-- ===== src/Ingress.antt =====
-- internal/ingress/gitea: the webhook events, their normalisation and the inbox of deliveries.
pub mod Event
pub mod Inbox
