-- ===== src/Client/Laws.antt =====
-- The client and the daemon understand each other: crates/devsite-client/src/lib.rs.
use devsite.Prelude.{◌≡◌, ◌++◌, ok, Bytes}
use devsite.Proto.Crypto.{Postcard}
use devsite.Proto.Wire.{Response, encode, decode, read_frame}
use devsite.Proto.Wire.Laws.{decode-read_frame-encode}
use devsite.Client.{verdict, read_response}

read_response-decoded :
    (wire : Postcard Response) (incoming payload rest : Bytes) (r : Response)
    → read_frame incoming ≡ ok (payload, rest)
    → decode wire payload ≡ ok r
    → read_response wire incoming ≡ verdict r rest
unfolding read_response
read_response-decoded wire incoming payload rest r read decoded =
    rw (read, read_response) (rw (decoded, read_response))

-- Whatever response the daemon encodes, and whatever follows it on the stream, the client reaches
-- the verdict of that response, and a connected stream goes on with exactly the bytes that follow.
pub read_response-encode :
    (wire : Postcard Response) (r : Response) (frame rest : Bytes)
    → encode wire r ≡ ok frame
    → read_response wire (frame ++ rest) ≡ verdict r rest
read_response-encode wire r frame rest e =
    let (payload, read, decoded) = decode-read_frame-encode wire r frame rest e in
    read_response-decoded wire (frame ++ rest) payload rest r read decoded
