-- ===== src/Http.antt =====
-- internal/delivery/http: the handlers, the middleware and the routes.
pub mod Json
pub mod Replies
pub mod Middleware
pub mod AuthHandler
pub mod PcAgentHandler
pub mod MobileDeviceHandler
pub mod AlertHandler
pub mod Router
pub mod Leaves
pub mod Invariants
pub mod Access
pub mod Sessions
pub mod Isolation
