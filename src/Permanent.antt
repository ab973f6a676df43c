-- ===== src/Permanent.antt =====
-- internal/permanent/permanent.go: errors that are not retried. An error of Go is a text, a text
-- around a cause (`fmt.Errorf` with %w), or `permanent.Error` around a cause, which is never nil
-- where the program makes one. No other type of the program has a method `Permanent`.
use malert.Base.{Text, Bool, true, false, Option, none, some, ◌++◌}

pub data GoError : Type 0 where
  plain : Text → GoError
  wrapped : Text → GoError → GoError
  marked : GoError → GoError

-- `Mark`; nil is `none`.
unfoldable pub mark : Option GoError → Option GoError
mark none = none
mark (some e) = some (marked e)

-- `errors.As` to the marker, down the chain of causes.
unfoldable pub has_marker : GoError → Bool
has_marker (plain t) = false
has_marker (wrapped t e) = has_marker e
has_marker (marked e) = true

-- `Is`.
unfoldable pub is_permanent : Option GoError → Bool
unfolding has_marker
is_permanent none = false
is_permanent (some e) = has_marker e

-- `Error`, the text of an error.
unfoldable pub error_text : GoError → Text
error_text (plain t) = t
error_text (wrapped t e) = t ++ error_text e
error_text (marked e) = error_text e
