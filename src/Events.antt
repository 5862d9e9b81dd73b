-- ===== src/Events.antt =====
-- internal/events/events.go: the click event, and the publisher over the Kafka client.
use shortn.Prelude.{ℕ, ◌*◌, String, List}
use shortn.Error.{errorf}
use shortn.Act.{Result, ok, err, Act, fail}
use shortn.Shortener.{Time}

-- The fields of the JSON contract: event_id, code, ts, referrer, user_agent, version.
pub record LinkClicked : Type 0 where
  pub event_id : String
  pub code : String
  pub timestamp : Time
  pub referrer : String
  pub user_agent : String
  pub version : ℕ

-- kgo.Record: the key chooses the partition.
pub record Message : Type 0 where
  pub key : String
  pub value : String

-- What the publisher calls of kgo.Client: ProduceSync with the first error of its results, and Close.
pub record KafkaClient (W : Type 0) : Type 0 where
  pub produce_sync : Message → Act W (Unit {0})
  pub close : W → W

pub record KafkaPublisher (W : Type 0) : Type 0 where
  pub client : KafkaClient W

-- 10 seconds
abbrev pub record_delivery_timeout : ℕ
record_delivery_timeout = 10 * 1000

module _ {W : Type 0} where
  client_or_error : Result (KafkaClient W) → Result (KafkaPublisher W)
  client_or_error (err e) = err (errorf "creating kafka client" e)
  client_or_error (ok client) = ok (record { client = client })

  -- NewKafkaPublisher. `new_client` is kgo.NewClient under seed brokers, a default topic and a
  -- delivery timeout; it does not dial.
  unfoldable pub new_kafka_publisher :
      (List String → String → ℕ → Result (KafkaClient W))
      → List String
      → String
      → Result (KafkaPublisher W)
  unfolding client_or_error
  new_kafka_publisher new_client brokers topic =
      client_or_error (new_client brokers topic record_delivery_timeout)

  -- Publish. `marshal` is json.Marshal.
  publish_payload : KafkaPublisher W → LinkClicked → Result String → Act W (Unit {0})
  publish_payload p e (err x) = fail (errorf "marshaling LinkClicked" x)
  publish_payload p e (ok payload) =
      p.client.produce_sync (record { key = e.code; value = payload })

  unfoldable pub publish :
      (LinkClicked → Result String) → KafkaPublisher W → LinkClicked → Act W (Unit {0})
  unfolding publish_payload
  publish marshal p e = publish_payload p e (marshal e)

  abbrev pub close : KafkaPublisher W → W → W
  close p w = p.client.close w
