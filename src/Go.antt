-- ===== src/Go.antt =====
-- Tables and formats of Go's libraries that the program uses and does not hold: they are given.
mod Numbers
unfoldable pub use Numbers.{atoi}
use Prim.Native.Char.{Char}
use Prim.Native.String.{[], ◌∷◌}
use servone.Prelude.{ℕ, String}

-- `http.CanonicalHeaderKey`, `unicode.ToUpper`, and the time of the clock in UTC as RFC 3339.
pub record Go : Type 0 where
  pub canonical_header_key : String → String
  pub upper_rune : Char → Char
  pub format_rfc3339 : ℕ → String

-- `strings.ToUpper`.
unfoldable pub to_upper : Go → String → String
to_upper go [] = []
to_upper go (c ∷ s) = go.upper_rune c ∷ to_upper go s
