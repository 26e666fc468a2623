-- ===== src/Kafka.antt =====
-- internal/kafka/client.go: the client of the brokers. `ProduceSync` is `kafka_producer` of Consumer.
use confluo.Prelude.{Text, List}
use confluo.World.{Go, wrap, join_group, ping, kafka}

-- `NewClient`; that the client never commits by itself and holds back a rebalance between polls
-- are options of franz-go.
unfoldable pub new_client : List Text → Text → Text → Go (Unit {0})
new_client brokers group topic = wrap "kafka client" (join_group brokers group topic)

-- `Ping`
unfoldable pub ping_kafka : Go (Unit {0})
ping_kafka = wrap "kafka ping" (ping kafka)
