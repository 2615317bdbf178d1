-- ===== src/Signaling/Delivery.antt =====
-- What an agent can make the hub of internal/signaling send.
use peerclaw_server.Prelude.{
  All-map, ℕ, ◌≡◌, ◌≢◌, refl, inl, inr, ◌⊎◌, String, Option, none, some, List, [], ◌∷◌, Bool, true,
  false, Result, ok, err, StoreError, sym, subst, arith, All, All-append, Option-cases, if_cases,
}
use peerclaw_server.Prelude.Maps.{get}
use peerclaw_server.Signaling.Conns.{Conns, has_agent}
use peerclaw_server.Signaling.Floats.{Float64}
use peerclaw_server.Signaling.Limiter.{MessageLimiter, allow}
use peerclaw_server.Signaling.Forward.{
  Message, Frame, Effect, writes, publishes, forwards, Broker, local_broker, redis_broker,
  federation_broker, Hub, deliver_local, publish, is_signaling_type, blocked, dispatch, verdict,
  decide, forward, process, read_loop,
}

-- An effect carries this very message, and a write goes to the connection of its receiver.
abbrev pub Carries : Conns → Message → Effect → Type 0
Carries conns msg (writes conn m) = (m ≡ msg) × (get msg.receiver conns ≡ some conn)
Carries conns msg (publishes m) = m ≡ msg
Carries conns msg (forwards m) = m ≡ msg

deliver_local-Carries :
    (conns : Conns) (msg : Message) → All (Carries conns msg) (deliver_local conns msg)
unfolding deliver_local
deliver_local-Carries conns msg = elim (Option-cases (get msg.receiver conns)) [
  | inl n ↦ rw n tt
  | inr (c, f) ↦ rw f ((refl, f), tt)
]

publish-Carries :
    (hub : Hub) (conns : Conns) (b : Broker) (msg : Message)
    → All (Carries conns msg) (publish hub conns b msg)
unfolding publish
publish-Carries hub conns local_broker msg = deliver_local-Carries conns msg
publish-Carries hub conns redis_broker msg = (refl, tt)
publish-Carries hub conns (federation_broker b) msg =
    if_cases (All (Carries conns msg)) (has_agent msg.receiver conns)
      (λ h. publish-Carries hub conns b msg)
      (λ h. (
        refl,
        if_cases (All (Carries conns msg)) (hub.forwarded msg) (λ e. tt)
            (λ e. publish-Carries hub conns b msg),
      ))

dispatch-Carries :
    (hub : Hub) (o : Option Broker) (conns : Conns) (msg : Message)
    → All (Carries conns msg) (dispatch hub o conns msg)
unfolding dispatch
dispatch-Carries hub none conns msg = deliver_local-Carries conns msg
dispatch-Carries hub (some b) conns msg = publish-Carries hub conns b msg

-- The contacts checker lets the message pass, or is not asked.
abbrev pub IsPermitted : Hub → Message → Type 0
IsPermitted hub msg =
    (verdict hub hub.contacts msg ≡ none) ⊎ (verdict hub hub.contacts msg ≡ some (ok true))

-- The message itself where it may pass, or the notice to its sender.
abbrev pub Sent : Hub → Conns → Message → Effect → Type 0
Sent hub conns msg e =
    (IsPermitted hub msg × Carries conns msg e) ⊎ Carries conns (blocked hub.types msg.sender) e

decide-Sent :
    (hub : Hub) (conns : Conns) (msg : Message) (v : Option (Result StoreError Bool))
    → verdict hub hub.contacts msg ≡ v
    → All (Sent hub conns msg) (decide hub conns msg v)
unfolding decide
decide-Sent hub conns msg none e =
    All-map (λ x c. inl (inl e, c)) (dispatch hub hub.broker conns msg)
      (dispatch-Carries hub hub.broker conns msg)
decide-Sent hub conns msg (some (err x)) e = tt
decide-Sent hub conns msg (some (ok false)) e =
    All-map (λ x c. inr c) (deliver_local conns (blocked hub.types msg.sender))
      (deliver_local-Carries conns (blocked hub.types msg.sender))
decide-Sent hub conns msg (some (ok true)) e =
    All-map (λ x c. inl (inr e, c)) (dispatch hub hub.broker conns msg)
      (dispatch-Carries hub hub.broker conns msg)

-- All that Forward sends is the message itself, unchanged, to its receiver, and only where the contacts
-- checker is not asked or says yes; or the notice to its sender.
pub forward-Sent :
    (hub : Hub) (conns : Conns) (msg : Message) → All (Sent hub conns msg) (forward hub conns msg)
unfolding forward
forward-Sent hub conns msg = decide-Sent hub conns msg (verdict hub hub.contacts msg) refl

-- The frame is one of these.
abbrev pub Among : Frame → List Frame → Type 0
Among x [] = ⊥
Among x (y ∷ ys) = (x ≡ y) ⊎ Among x ys

-- The effect is one that Forward makes of the message of one of the frames, at the time of that frame, with
-- the agent as its sender.
abbrev pub IsFrom : (ℕ → Hub) → String → List Frame → Effect → Type 0
IsFrom hub_at agent frames e =
    (x : Frame) × Among x frames
    × (msg : Message) × (x.2 ≡ some msg)
    × Sent (hub_at x.0) x.1 (record msg { sender = agent }) e

process-IsFrom :
    (hub_at : ℕ → Hub) (agent : String) (now : ℕ) (conns : Conns) (frame : Option Message)
    (frames : List Frame)
    → All
        (IsFrom hub_at agent ((now, conns, frame) ∷ frames))
        (process (hub_at now) conns agent frame)
unfolding process
process-IsFrom hub_at agent now conns none frames = tt
process-IsFrom hub_at agent now conns (some msg) frames =
    All-map (λ e s. ((now, conns, some msg), inl refl, msg, refl, s))
      (forward (hub_at now) conns (record msg { sender = agent }))
      (forward-Sent (hub_at now) conns (record msg { sender = agent }))

-- Whatever frames an agent sends, the hub sends for them only their messages, with the agent's own
-- identifier as the sender, each where the contacts checker at the time of its frame is not asked or lets it
-- pass, and notices to the agent itself.
pub read_loop-IsFrom :
    (f : Float64) (hub_at : ℕ → Hub) (agent : String) (l : MessageLimiter f) (frames : List Frame)
    → All (IsFrom hub_at agent frames) (read_loop f hub_at agent l frames)
unfolding read_loop
read_loop-IsFrom f hub_at agent l [] = tt
read_loop-IsFrom f hub_at agent l ((now, conns, frame) ∷ frames) =
    if_cases (All (IsFrom hub_at agent ((now, conns, frame) ∷ frames))) (allow f now l).1
      (λ h.
        All-append (IsFrom hub_at agent ((now, conns, frame) ∷ frames))
          (process (hub_at now) conns agent frame)
          (read_loop f hub_at agent (allow f now l).0 frames)
          (process-IsFrom hub_at agent now conns frame frames)
          (All-map (λ e (x, among, msg, own, sent). (x, inr among, msg, own, sent))
            (read_loop f hub_at agent (allow f now l).0 frames)
            (read_loop-IsFrom f hub_at agent (allow f now l).0 frames)))
      (λ h. tt)

decide-blocked :
    (hub : Hub) (conns : Conns) (msg : Message) (r : Result StoreError Bool)
    → r ≢ ok true
    → All (Carries conns (blocked hub.types msg.sender)) (decide hub conns msg (some r))
unfolding decide
decide-blocked hub conns msg (err e) n = tt
decide-blocked hub conns msg (ok false) n =
    deliver_local-Carries conns (blocked hub.types msg.sender)
decide-blocked hub conns msg (ok true) n = elim (n refl) [ ]

-- A signalling message that the contacts checker does not let pass reaches nobody but its sender, as a
-- notice: every effect of Forward carries that notice.
pub forward-blocked :
    (hub : Hub) (check : String → String → Result StoreError Bool) (conns : Conns) (msg : Message)
    → hub.contacts ≡ some check
    → is_signaling_type hub.types msg.kind ≡ true
    → check msg.sender msg.receiver ≢ ok true
    → All (Carries conns (blocked hub.types msg.sender)) (forward hub conns msg)
unfolding forward verdict
forward-blocked hub check conns msg asked kind denied =
    subst (λ v. All (Carries conns (blocked hub.types msg.sender)) (decide hub conns msg v))
      (sym asks) (decide-blocked hub conns msg (check msg.sender msg.receiver) denied)
  where
    asks : verdict hub hub.contacts msg ≡ some (check msg.sender msg.receiver)
    asks = ground (arith, asked, kind)
