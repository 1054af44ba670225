-- ===== src/Tests/Topics.antt =====
-- Topic names and publishing.
use servone.Prelude.{ℕ, ◌+◌, ◌≤◌, ◌≡◌, refl, ◌↔◌, [], ◌∷◌, ◌++◌}
use servone.Prelude.Text.{rune_count}
use servone.World.{
  Delivery, returned, produced, incremented, observed, kafka_publish_total, kafka_publish_duration,
}
use servone.Kafka.Topic.{sanitize_topic}
use servone.Kafka.Topic.Laws.{
  IsTopicName, sanitize_topic-IsTopicName, sanitize_topic_fixed_iff, rune_count-sanitize_topic,
}
use servone.Kafka.Publisher.{publish, kafka_publisher}
use servone.Kafka.Publisher.Laws.{status_of, error_of, failure_log, publish_once}
use servone.Kafka.Contract.{IsPublisher, kafka_publisher-IsPublisher}
use servone.Tests.Samples.{sample_env, sample_world, reading}

topics :
    (sanitize_topic "/hands/left" ≡ "bz.hands.left")
    × (sanitize_topic "a b/c$é" ≡ "bz.ab.c")
    × (sanitize_topic "/bz.x" ≡ "bz.x")
    × (sanitize_topic "//a" ≡ "bz..a")
    × (sanitize_topic "" ≡ "bz.")
unfolding sanitize_topic
topics = (refl, refl, refl, refl, refl)

sanitize_topic-IsTopicName_example : IsTopicName (sanitize_topic "/hands/left é")
sanitize_topic-IsTopicName_example = sanitize_topic-IsTopicName "/hands/left é"

sanitize_topic_fixed_iff_example : (sanitize_topic "bz.a" ≡ "bz.a") ↔ IsTopicName "bz.a"
sanitize_topic_fixed_iff_example = sanitize_topic_fixed_iff "bz.a"

rune_count-sanitize_topic_example : rune_count (sanitize_topic "/a b") ≤ rune_count "/a b" + 3
rune_count-sanitize_topic_example = rune_count-sanitize_topic "/a b"

publish_once_example :
    (d : Delivery) × (took : ℕ) × ((publish sample_env "/a" reading sample_world).0
      ≡ returned (error_of d))
    × ((publish sample_env "/a" reading sample_world).1.trace
        ≡ observed kafka_publish_duration (sanitize_topic "/a" ∷ []) took
            ∷ incremented kafka_publish_total (sanitize_topic "/a" ∷ status_of d ∷ [])
            ∷ failure_log d
          ++ produced (sanitize_topic "/a") "{}" d ∷ [])
publish_once_example = publish_once sample_env "/a" reading sample_world refl

kafka_publisher-IsPublisher_example : IsPublisher (kafka_publisher sample_env)
kafka_publisher-IsPublisher_example = kafka_publisher-IsPublisher sample_env
