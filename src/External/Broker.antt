-- ===== src/External/Broker.antt =====
-- A channel of RabbitMQ (`amqplib`), as a parameter, and the publisher service over it.
use saas_chassis.Prelude.{
  String, ◌≡◌, ◌⊎◌, inl, inr, Option, none, some, List, [], ◌∷◌, ◌++◌, Result, ok, Elem,
}

pub record Envelope (Message : Type 0) : Type 0 where
  pub exchange : String
  pub routing_key : String
  pub message : Message

-- `publish` hands a message to the channel or throws; `sent` is what the channel was handed.
pub record Broker (Message : Type 0) : Type 1 where
  pub Channel : Type 0
  pub sent : Channel → List (Envelope Message)
  pub publish : Envelope Message → Channel → Result (Unit {0}) × Channel

-- The channel of `RabbitMqPublisherService` is null until the service has connected.
abbrev pub Publisher : {Message : Type 0} → Broker Message → Type 0
Publisher b = Option b.Channel

module _ {Message : Type 0} (b : Broker Message) where
  -- `publish` of the service: no channel and a throw of the channel are logged, never thrown.
  abbrev pub publish_message : Envelope Message → Publisher b → Publisher b
  publish_message m none = none
  publish_message m (some c) = let (_, c') = b.publish m c in some c'

-- What the documentation says of `publish`: the channel was handed the message, or, where it throws,
-- at most that.
pub record IsBroker {Message : Type 0} (b : Broker Message) : Type 0 where
  pub publish_sent :
      (e m : Envelope Message) (c : b.Channel)
      → Elem m (b.sent (b.publish e c).1)
      → (m ≡ e) ⊎ Elem m (b.sent c)

module _ {Message : Type 0} (b : Broker Message) where
  -- The messages that a service has handed to its channel.
  abbrev pub sent_by : Publisher b → List (Envelope Message)
  sent_by none = []
  sent_by (some c) = b.sent c

  pub publish_message-sent :
      IsBroker b
      → (e m : Envelope Message) (p : Publisher b) → Elem m (sent_by (publish_message b e p))
      → (m ≡ e) ⊎ Elem m (sent_by p)
  publish_message-sent law e m none has = inr has
  publish_message-sent law e m (some c) has = law.publish_sent e m c has

-- A broker in memory, for the examples.
abbrev pub memory_broker : {Message : Type 0} → Broker Message
memory_broker {Message} = record {
  Channel = List (Envelope Message);
  sent = λ c. c;
  publish = λ m c. (ok tt, c ++ m ∷ []);
}

elem-append :
    {Message : Type 0} (e m : Envelope Message) (c : List (Envelope Message))
    → Elem m (c ++ e ∷ [])
    → (m ≡ e) ⊎ Elem m c
elem-append e m [] (inl h) = inl h
elem-append e m [] (inr h) = elim h [ ]
elem-append e m (x ∷ c) (inl h) = inr (inl h)
elem-append e m (x ∷ c) (inr h) = elim (elem-append e m c h) [ inl k ↦ inl k | inr k ↦ inr (inr k) ]

-- The broker in memory is one.
pub memory_broker-IsBroker : {Message : Type 0} → IsBroker (memory_broker {Message = Message})
memory_broker-IsBroker = record { publish_sent = λ e m c has. elem-append e m c has }
