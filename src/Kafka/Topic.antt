-- ===== src/Kafka/Topic.antt =====
-- Topic names: `SanitizeTopic` of kafka/kafka.go.
pub mod Laws
use Prim.Native.Char.{Char}
use servone.Prelude.{ℕ, String, Bool, true, false, ◌&&◌, ◌||◌, leb, ◌==◌, if◌then◌else◌}
use servone.Prelude.Text.{◌<>◌, has_prefix, trim_prefix, replace_char, keep_chars}

-- The class [a-zA-Z0-9._-] of `topicSanitizeRegex`, negated there.
unfoldable pub is_topic_char : ℕ → Bool
is_topic_char c =
    leb b'a' c && leb c b'z'
    || leb b'A' c && leb c b'Z'
    || leb b'0' c && leb c b'9'
    || c == b'.'
    || c == b'_'
    || c == b'-'

unfoldable pub sanitize_topic : String → String
unfolding is_topic_char has_prefix trim_prefix replace_char keep_chars
sanitize_topic topic =
    let trimmed = trim_prefix topic "/" in
    let dotted = replace_char "/" "." trimmed in
    let legal = keep_chars is_topic_char dotted in
    if has_prefix legal "bz." then legal else "bz." <> legal
