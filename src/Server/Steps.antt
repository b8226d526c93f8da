-- ===== src/Server/Steps.antt =====
-- The server as a state machine: an HTTP request, an MQTT message or a round of a subscriber takes
-- the tables from one state to the next.
use datn_backend.Prelude.{ℕ, Option}
use datn_backend.World.{World, Env}
use datn_backend.Auth.Setup.{AuthUseCase}
use datn_backend.Notification.{Sender}
use datn_backend.Mqtt.Publish.{Published}
use datn_backend.Http.Json.{Codec}
use datn_backend.Http.Replies.{Request}
use datn_backend.Http.Router.{Route, serve}
use datn_backend.Server.{Payloads, handle_mqtt_alert, handle_mqtt_status}

-- What the process is built with.
pub record Process : Type 0 where
  pub env : Env
  pub codec : Codec
  pub auth : AuthUseCase
  pub notifications : Option Sender
  pub payloads : Payloads

module _ (p : Process) where
  pub data Step : World → World → Type 0 where
    http :
        (w : World) (route : Route) (request : Request)
        → Step w (serve p.env p.codec p.auth route request w).1
    alert :
        (w : World) (message : Published)
        → Step w (handle_mqtt_alert p.env p.notifications p.payloads message w).1
    status :
        (w : World) (message : Published)
        → Step w (handle_mqtt_status p.env p.notifications p.payloads message w).1
    -- Time passes, and the publisher and the subscribers use the clock and the network.
    elapse : (w : World) (n : ℕ) → Step w (record w { steps = n })

  pub data Reach (w : World) : World → Type 0 where
    here : Reach w w
    next : {u v : World} → Reach w u → Step u v → Reach w v
