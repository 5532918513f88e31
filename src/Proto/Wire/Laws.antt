-- ===== src/Proto/Wire/Laws.antt =====
-- Frames written are read back, and no prefix asks for more than the limit:
-- crates/devsite-proto/src/wire.rs.
use devsite.Prelude.{
  ℕ, ◌≤◌, ◌%◌, ◌≡◌, ◌++◌, ok, some, ok_or, ok_or-eq-ok, arith, length, length-append, Bytes,
  take-length_append, drop-length_append, >>=-eq-ok,
}
use devsite.Prelude.Words.{le_bytes, from_le, u32_mod, from_le-le_bytes, length-le_bytes}
use devsite.Proto.Crypto.{Postcard}
use mathlib.Core.Path.{subst, sym}
use mathlib.Core.List.{append_assoc}
use devsite.Proto.Wire.{
  max_frame_bytes, malformed, frame_len, encode, decode, read_frame, read_exact,
}

read_exact-append : (xs ys : Bytes) → read_exact (length xs) (xs ++ ys) ≡ ok (xs, ys)
unfolding read_exact
read_exact-append xs ys = rw (take-length_append, drop-length_append, length-append) (ground arith)

-- Reading four bytes off a list that begins with four.
read_exact-prefix : (xs ys : Bytes) → length xs ≡ 4 → read_exact 4 (xs ++ ys) ≡ ok (xs, ys)
read_exact-prefix xs ys e =
    subst (λ n. read_exact n (xs ++ ys) ≡ ok (xs, ys)) e (read_exact-append xs ys)

frame_len-le_bytes : (n : ℕ) → n ≤ max_frame_bytes → frame_len (le_bytes 4 (n % u32_mod)) ≡ ok n
unfolding frame_len
frame_len-le_bytes n h =
    let sized : n % u32_mod ≡ n = omega arith in
    let spelled : from_le (le_bytes 4 (n % u32_mod)) ≡ n =
      rw sized (from_le-le_bytes n (omega arith)) in
    rw spelled (ground arith)

read_frame-append :
    (payload rest : Bytes)
    → length payload ≤ max_frame_bytes
    → read_frame ((le_bytes 4 (length payload % u32_mod) ++ payload) ++ rest) ≡ ok (payload, rest)
unfolding read_frame
read_frame-append payload rest h =
    let prefix = le_bytes 4 (length payload % u32_mod) in
    rw (append_assoc prefix payload rest) (
      rw (read_exact-prefix prefix (payload ++ rest) (length-le_bytes 4 (length payload % u32_mod)))
        (rw (frame_len-le_bytes (length payload) h) (read_exact-append payload rest)))

module _ {T : Type 0} (postcard : Postcard T) where
  encode-eq-ok :
      (value : T) (frame : Bytes)
      → encode postcard value ≡ ok frame
      → (payload : Bytes) × (postcard.to_allocvec value ≡ some payload)
        × (length payload ≤ max_frame_bytes)
        × (frame ≡ le_bytes 4 (length payload % u32_mod) ++ payload)
  unfolding encode
  encode-eq-ok value frame e =
      let (payload, encoded, rest) = >>=-eq-ok (ok_or (postcard.to_allocvec value) malformed) _ e in
      (payload, ok_or-eq-ok _ _ encoded, ground arith, ground arith)

  -- A value that encodes is read back from any stream that begins with its frame: the frame's
  -- length passes the reader's check, exactly the payload is taken, and it decodes to the value.
  pub decode-read_frame-encode :
      (value : T) (frame rest : Bytes)
      → encode postcard value ≡ ok frame
      → (payload : Bytes) × (read_frame (frame ++ rest) ≡ ok (payload, rest))
        × (decode postcard payload ≡ ok value)
  unfolding decode
  decode-read_frame-encode value frame rest e =
      let (payload, encoded, small, same) = encode-eq-ok value frame e in
      (
        payload,
        subst (λ f. read_frame (f ++ rest) ≡ ok (payload, rest)) (sym same)
            (read_frame-append payload rest small),
        rw (postcard.from_bytes-to_allocvec value payload encoded),
      )
