-- ===== src/Signaling/Examples.antt =====
-- Runs of internal/signaling, and its theorems at them.
use peerclaw_server.Prelude.{
  ℕ, ◌+◌, ◌-◌, ◌*◌, ◌/◌, ltb, if◌then◌else◌, ◌≤◌, ◌≡◌, ◌≢◌, ◌↔◌, refl, String, none, some, List, [],
  ◌∷◌, Bool, true, false, ◌==◌, ◌&&◌, Result, ok, StoreError, arith, eq_iff, All, second,
}
use peerclaw_server.Prelude.Maps.{get}
use peerclaw_server.Signaling.Conns.{Conns, registers, leaves, events}
use peerclaw_server.Signaling.Sessions.{newest_of, events-newest}
use peerclaw_server.Signaling.Auth.{is_stale, AuthFrame, Verifier, authenticate_conn}
use peerclaw_server.Signaling.Freshness.{authenticate_conn-accepts}
use peerclaw_server.Signaling.Floats.{Float64, IsFloat64}
use peerclaw_server.Signaling.Limiter.{new_message_limiter, run_limiter}
use peerclaw_server.Signaling.Allowance.{new_message_limiter-bound}
use peerclaw_server.Signaling.Forward.{
  MessageTypes, Message, Frame, Hub, local_broker, federation_broker, forward, is_signaling_type,
  read_loop, writes,
}
use peerclaw_server.Signaling.Delivery.{IsFrom, read_loop-IsFrom}

-- The second connection of "alice" stays when the first one, which it replaced, ends.
events-newest_example :
    get "alice" (events [] (registers "alice" 1 ∷ registers "alice" 2 ∷ leaves "alice" 1 ∷ []))
    ≡ newest_of "alice"
        (get "alice" [])
        (registers "alice" 1 ∷ registers "alice" 2 ∷ leaves "alice" 1 ∷ [])
events-newest_example =
    events-newest "alice" [] (registers "alice" 1 ∷ registers "alice" 2 ∷ leaves "alice" 1 ∷ [])

abbrev two : List (String × ℕ)
two = ("a", 1) ∷ ("b", 2) ∷ []

-- A signature fits a key if it is the key's name.
abbrev verified : Verifier
verified key agent timestamp signature = signature == key

abbrev frame : AuthFrame
frame = record {
  agent_id = "alice";
  timestamp = 100;
  signature = "key of mallory";
  public_key = "key of mallory";
}

authenticate_conn-accepts_example :
    (authenticate_conn verified 101 "alice" (some frame) ≡ ok "alice") ↔ (
      (◌≡◌ {A = String} "alice" "alice")
      × (frame.agent_id ≡ "alice")
      × (frame.public_key ≢ "")
      × (frame.signature ≢ "")
      × (is_stale 101 frame.timestamp ≡ false)
      × (verified frame.public_key frame.agent_id frame.timestamp frame.signature ≡ true))
authenticate_conn-accepts_example =
    authenticate_conn-accepts verified 101 "alice" frame "alice"
      (λ e. ground (arith, eq_iff "alice" ""))

accepted : authenticate_conn verified 101 "alice" (some frame) ≡ ok "alice"
unfolding authenticate_conn
accepted = refl

-- Billionths, without rounding.
abbrev exact : Float64
exact = record {
  Carrier = ℕ;
  one_token = second;
  plus = λ a b. a + b;
  minus = λ a b. a - b;
  times = λ a b. a * b / second;
  below = ltb;
  of_int = λ n. n * second;
  seconds = λ d. d;
  is_amount = λ a. true;
  billionths = λ a. a;
}

scaled : (d r : ℕ) → d * (r * second) / second ≡ d * r
scaled d r = omega (arith, assoc d r)
  where
    assoc : (d r : ℕ) → d * (r * second) ≡ d * r * second
    assoc d r = grind arith

exact-IsFloat64 : IsFloat64 exact
exact-IsFloat64 = record {
  ints = λ n h. (refl, omega arith);
  products_are_amounts = λ d r small. refl;
  products = λ d r small h. omega (arith, scaled d r);
  sums_are_amounts = λ a b ha hb. refl;
  sums = λ a b ha hb h. omega arith;
  above = λ n a h ha l. ground (arith, l);
  not_above = λ n a h ha l. ground (arith, l);
  spends = λ a ha h l. (refl, ground (arith, l));
}

new_message_limiter-bound_example :
    (run_limiter exact
          (new_message_limiter exact (10 * second) 2 0)
          (0 ∷ 1 ∷ 2 ∷ 100_000_000 ∷ [])).1
        * second
      + 0 * 10
    ≤ 2 * second
      + (run_limiter exact
          (new_message_limiter exact (10 * second) 2 0)
          (0 ∷ 1 ∷ 2 ∷ 100_000_000 ∷ [])).0.last_time
        * 10
      + 2 * 4
new_message_limiter-bound_example =
    new_message_limiter-bound exact exact-IsFloat64 2 10 (omega arith) (omega arith) 0
      (0 ∷ 1 ∷ 2 ∷ 100_000_000 ∷ [])
      (ground arith, (ground arith, (ground arith, (ground arith, tt))))

abbrev types : MessageTypes
types = record {
  offer = "offer";
  answer = "answer";
  ice_candidate = "ice_candidate";
  signaling_error = "signaling_error";
  notification = "notification";
  bridge_message = "bridge_message";
}

-- Only "bob" may signal to "alice".
abbrev check : String → String → Result StoreError Bool
check sender receiver = ok (sender == "bob" && receiver == "alice")

abbrev hub : Hub
hub = record {
  types = types;
  contacts = some check;
  broker = some (federation_broker local_broker);
  forwarded = λ m. true;
}

abbrev offer_to_alice : Message
offer_to_alice = record { kind = "offer"; sender = "bob"; receiver = "alice"; payload = "" }

abbrev conns : Conns
conns = ("alice", 1) ∷ ("eve", 2) ∷ []

-- From time 6 on nobody may.
abbrev hub_at : ℕ → Hub
hub_at now = if ltb now 6 then hub else record hub { contacts = some (λ a b. ok false) }

abbrev frames : List Frame
frames = (5, conns, some offer_to_alice) ∷ (6, conns, some offer_to_alice) ∷ (7, conns, none) ∷ []

read_loop-IsFrom_example :
    All
      (IsFrom hub_at "bob" frames)
      (read_loop exact hub_at "bob" (new_message_limiter exact (10 * second) 2 0) frames)
read_loop-IsFrom_example =
    read_loop-IsFrom exact hub_at "bob" (new_message_limiter exact (10 * second) 2 0) frames

is_offer : is_signaling_type types "offer" ≡ true
unfolding is_signaling_type
is_offer = refl

delivered : forward hub conns offer_to_alice ≡ writes 1 offer_to_alice ∷ []
unfolding forward get
delivered = refl
