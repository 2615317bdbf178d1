-- ===== src/Signaling/Forward.antt =====
-- The delivery of messages by internal/signaling: Forward, DeliverLocal, PushNotification and
-- DeliverEnvelope of ws.go, the read loop of HandleConnect, and the brokers of local_broker.go and
-- federation_broker.go. The message types of peerclaw-core, the decoding of a frame, the contacts
-- checker, the federation and the Redis broker are arguments. A write to a connection, a Redis
-- publication and a federated forward are effects, listed in their order; their errors are only logged.
use peerclaw_server.Prelude.{
  ℕ, String, Option, none, some, List, [], ◌∷◌, ◌++◌, Bool, true, false, ◌||◌, ◌==◌, if◌then◌else◌,
  Result, ok, err, StoreError,
}
use peerclaw_server.Prelude.Maps.{get}
use peerclaw_server.Signaling.Conns.{Conns, has_agent}
use peerclaw_server.Signaling.Floats.{Float64}
use peerclaw_server.Signaling.Limiter.{MessageLimiter, allow}

-- The constants of the message types.
pub record MessageTypes : Type 0 where
  pub offer : String
  pub answer : String
  pub ice_candidate : String
  pub signaling_error : String
  pub notification : String
  pub bridge_message : String

pub record Message : Type 0 where
  pub kind : String
  pub sender : String
  pub receiver : String
  pub payload : String

pub data Effect : Type 0 where
  writes : ℕ → Message → Effect
  publishes forwards : Message → Effect

-- The broker: none of its own, Redis, or federation over another one.
pub data Broker : Type 0 where
  local_broker redis_broker : Broker
  federation_broker : Broker → Broker

-- What the hub is set up with, and what its neighbours answer.
pub record Hub : Type 0 where
  pub types : MessageTypes
  pub contacts : Option (String → String → Result StoreError Bool)
  pub broker : Option Broker
  pub forwarded : Message → Bool

unfoldable pub write_to : Option ℕ → Message → List Effect
write_to none msg = []
write_to (some conn) msg = writes conn msg ∷ []

unfoldable pub deliver_local : Conns → Message → List Effect
unfolding write_to
deliver_local conns msg = write_to (get msg.receiver conns) msg

unfoldable pub publish : Hub → Conns → Broker → Message → List Effect
unfolding deliver_local has_agent
publish hub conns local_broker msg = deliver_local conns msg
publish hub conns redis_broker msg = publishes msg ∷ []
publish hub conns (federation_broker b) msg =
    let rest = publish hub conns b msg in
    if has_agent msg.receiver conns
    then rest
    else forwards msg ∷ (if hub.forwarded msg then [] else rest)

unfoldable pub is_signaling_type : MessageTypes → String → Bool
is_signaling_type types kind =
    kind == types.offer || (kind == types.answer || kind == types.ice_candidate)

-- The notice to a sender whose message is blocked.
abbrev pub blocked : MessageTypes → String → Message
blocked types sender = record {
  kind = types.signaling_error;
  sender = "server";
  receiver = sender;
  payload =
      "{\"error\":\"not_in_contacts\",\"message\":\"recipient has not added you as a contact\"}";
}

unfoldable pub dispatch : Hub → Option Broker → Conns → Message → List Effect
unfolding publish deliver_local
dispatch hub none conns msg = deliver_local conns msg
dispatch hub (some b) conns msg = publish hub conns b msg

-- The verdict of the contacts checker: none where it is not asked.
unfoldable pub verdict :
    Hub
    → Option (String → String → Result StoreError Bool)
    → Message
    → Option (Result StoreError Bool)
unfolding is_signaling_type
verdict hub none msg = none
verdict hub (some check) msg =
    if is_signaling_type hub.types msg.kind then some (check msg.sender msg.receiver) else none

unfoldable pub decide : Hub → Conns → Message → Option (Result StoreError Bool) → List Effect
unfolding dispatch deliver_local
decide hub conns msg none = dispatch hub hub.broker conns msg
decide hub conns msg (some (err e)) = []
decide hub conns msg (some (ok false)) = deliver_local conns (blocked hub.types msg.sender)
decide hub conns msg (some (ok true)) = dispatch hub hub.broker conns msg

unfoldable pub forward : Hub → Conns → Message → List Effect
unfolding decide verdict
forward hub conns msg = decide hub conns msg (verdict hub hub.contacts msg)

-- The body of the read loop after the limiter: a frame that is no message is skipped, and the sender is
-- the agent of the connection.
unfoldable pub process : Hub → Conns → String → Option Message → List Effect
unfolding forward
process hub conns agent none = []
process hub conns agent (some msg) = forward hub conns (record msg { sender = agent })

-- A frame that arrives: its time, the table of connections at that time, and the message in it.
abbrev pub Frame : Type 0
Frame = ℕ × Conns × Option Message

-- The read loop on the frames that arrive. `hub_at` is the hub at a time, with what its neighbours answer
-- then. The loop ends at the first frame that the limiter refuses.
unfoldable pub read_loop :
    (f : Float64) → (ℕ → Hub) → String → MessageLimiter f → List Frame → List Effect
unfolding process allow
read_loop f hub_at agent l [] = []
read_loop f hub_at agent l ((now, conns, frame) ∷ frames) =
    let rest = read_loop f hub_at agent (allow f now l).0 frames in
    if (allow f now l).1 then process (hub_at now) conns agent frame ++ rest else []

-- The notification, and whether it was delivered.
unfoldable pub push_notification : Hub → Conns → String → String → Option (List Effect)
push_notification hub conns agent payload = elim (get agent conns) [
  | none ↦ none
  | some conn ↦ some (
      writes conn (record {
        kind = hub.types.notification;
        sender = "server";
        receiver = agent;
        payload = payload;
      })
      ∷ [])
]

unfoldable pub deliver_envelope : Hub → Conns → String → String → Option (List Effect)
deliver_envelope hub conns agent payload = elim (get agent conns) [
  | none ↦ none
  | some conn ↦ some (
      writes conn (record {
        kind = hub.types.bridge_message;
        sender = "";
        receiver = agent;
        payload = payload;
      })
      ∷ [])
]

unfoldable pub broadcast_notification : Hub → Conns → String → List Effect
broadcast_notification hub [] payload = []
broadcast_notification hub ((agent, conn) ∷ conns) payload =
    writes conn (record {
      kind = hub.types.notification;
      sender = "server";
      receiver = agent;
      payload = payload;
    })
    ∷ broadcast_notification hub conns payload
