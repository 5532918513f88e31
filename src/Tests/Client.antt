-- ===== src/Tests/Client.antt =====
-- crates/devsite-client/src/lib.rs at a concrete input.
use devsite.Prelude.{◌≡◌, refl, ok, err, text, ◌∷◌, [], Bytes}
use devsite.Prelude.Words.{le_bytes}
use devsite.Samples.{response_codec}
use devsite.Proto.Wire.{Response, error, denied, encode}
use devsite.Client.{verdict, refused}

abbrev answer : Response
answer = error denied (text "denied")

abbrev frame : Bytes
frame = 7 ∷ 0 ∷ 0 ∷ 0 ∷ 1 ∷ text "denied"

is_framed : encode response_codec answer ≡ ok frame
unfolding encode le_bytes
is_framed = refl

is_refused : verdict answer (9 ∷ []) ≡ err refused
unfolding verdict
is_refused = refl
