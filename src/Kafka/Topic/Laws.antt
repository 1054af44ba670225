-- ===== src/Kafka/Topic/Laws.antt =====
-- What `sanitize_topic` makes of a topic name.
use servone.Prelude.{ℕ, String, ◌+◌, ◌≤◌, ◌≡◌, ◌≢◌, ◌↔◌, ◌⊎◌, inl, inr, true, arith, Bool-cases}
use servone.Prelude.Text.{
  has_prefix, trim_prefix, replace_char, keep_chars, AllChars, AllChars-append, AllChars-map,
  rune_count, rune_count-append, keep_chars_sound, keep_chars_id, rune_count-keep_chars,
  replace_char_id, rune_count-replace_char, rune_count-trim_slash, trim_slash_id, has_prefix-append,
}
use servone.Kafka.Topic.{is_topic_char, sanitize_topic}

-- The characters that Kafka allows in a topic name.
abbrev pub IsTopicChar : ℕ → Type 0
IsTopicChar n =
    ((b'a' ≤ n) × (n ≤ b'z'))
    ⊎ ((b'A' ≤ n) × (n ≤ b'Z'))
    ⊎ ((b'0' ≤ n) × (n ≤ b'9'))
    ⊎ (n ≡ b'.')
    ⊎ (n ≡ b'_')
    ⊎ (n ≡ b'-')

-- A name that holds those characters alone and begins with the program's prefix.
abbrev pub IsTopicName : String → Type 0
IsTopicName topic = AllChars IsTopicChar topic × (has_prefix topic "bz." ≡ true)

IsTopicChar-of_test : (n : ℕ) → is_topic_char n ≡ true → IsTopicChar n
unfolding is_topic_char
IsTopicChar-of_test n h = ground arith

test_of_IsTopicChar : (n : ℕ) → IsTopicChar n → is_topic_char n ≡ true
unfolding is_topic_char
test_of_IsTopicChar n h = ground arith

-- The text before the prefix is added.
abbrev stripped : String → String
stripped topic = keep_chars is_topic_char (replace_char "/" "." (trim_prefix topic "/"))

stripped-AllChars : (topic : String) → AllChars IsTopicChar (stripped topic)
stripped-AllChars topic =
    AllChars-map _ IsTopicChar IsTopicChar-of_test (stripped topic) (keep_chars_sound _ _)

-- Whatever the input, the result begins with "bz." and holds only characters that Kafka allows.
pub sanitize_topic-IsTopicName : (topic : String) → IsTopicName (sanitize_topic topic)
unfolding sanitize_topic
sanitize_topic-IsTopicName topic = elim (Bool-cases (has_prefix (stripped topic) "bz.")) [
  | inl e ↦ rw e (stripped-AllChars topic, e)
  | inr e ↦ rw e (
    AllChars-append IsTopicChar "bz." (stripped topic) (omega arith) (stripped-AllChars topic),
    has_prefix-append "bz." (stripped topic),
  )
]

stripped_id : (topic : String) → AllChars IsTopicChar topic → stripped topic ≡ topic
stripped_id topic h =
    let no_slash = AllChars-map IsTopicChar (λ n. n ≢ b'/') (λ n k. ground arith) topic h in
    rw (trim_slash_id topic no_slash, replace_char_id "/" "." topic no_slash)
      (keep_chars_id is_topic_char topic (AllChars-map IsTopicChar _ test_of_IsTopicChar topic h))

sanitize_topic_id : (topic : String) → IsTopicName topic → sanitize_topic topic ≡ topic
unfolding sanitize_topic
sanitize_topic_id topic (legal, prefixed) = rw (stripped_id topic legal, prefixed)

-- A topic is left as it is exactly when it begins with "bz." and holds only
-- characters that Kafka allows.
pub sanitize_topic_fixed_iff : (topic : String) → (sanitize_topic topic ≡ topic) ↔ IsTopicName topic
sanitize_topic_fixed_iff topic =
    (λ e. rw e at (sanitize_topic-IsTopicName topic), sanitize_topic_id topic)

-- Sanitizing twice, as a caller and `Publish` do, is sanitizing once.
pub sanitize_topic_idempotent :
    (topic : String) → sanitize_topic (sanitize_topic topic) ≡ sanitize_topic topic
sanitize_topic_idempotent topic = sanitize_topic_id _ (sanitize_topic-IsTopicName topic)

-- A topic grows by the three characters of the prefix at most.
pub rune_count-sanitize_topic :
    (topic : String) → rune_count (sanitize_topic topic) ≤ rune_count topic + 3
unfolding sanitize_topic
rune_count-sanitize_topic topic =
    let kept = rune_count-keep_chars is_topic_char (replace_char "/" "." (trim_prefix topic "/")) in
    let replaced = rune_count-replace_char "/" "." (trim_prefix topic "/") in
    let trimmed = rune_count-trim_slash topic in
    let prefixed = rune_count-append "bz." (stripped topic) in
    unfold rune_count in ground (arith, kept, replaced, trimmed, prefixed)
