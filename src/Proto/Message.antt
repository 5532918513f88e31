-- ===== src/Proto/Message.antt =====
-- crates/devsite-proto/src/lib.rs: the statements that endpoints sign. Texts are their UTF-8 bytes,
-- and an endpoint is its 32 bytes.
pub mod Laws
use devsite.Prelude.{ℕ, List, [], ◌∷◌, ◌++◌, Bytes, text, length, ◌%◌}
use devsite.Prelude.Words.{be_bytes, u64_mod}

-- `b"dev.site machine endpoint proof v1\0"`.
abbrev pub proof_prefix : Bytes
proof_prefix = text "dev.site machine endpoint proof v1" ++ 0 ∷ []

-- `b"dev.site service grant request v1\0"`.
abbrev pub request_prefix : Bytes
request_prefix = text "dev.site service grant request v1" ++ 0 ∷ []

-- `b"dev.site service grant issue v1\0"`.
abbrev pub issue_prefix : Bytes
issue_prefix = text "dev.site service grant issue v1" ++ 0 ∷ []

-- The bytes that `push_field` appends.
unfoldable pub push_field : Bytes → Bytes
push_field field = be_bytes 8 (length field % u64_mod) ++ field

unfoldable pub machine_endpoint_proof_message : Bytes → Bytes
machine_endpoint_proof_message endpoint = proof_prefix ++ endpoint

unfoldable pub service_grant_request_message : Bytes → Bytes → Bytes → ℕ → Bytes
unfolding push_field
service_grant_request_message request_id service requester_endpoint expires_at =
    request_prefix
    ++ (push_field request_id
        ++ (push_field service ++ (push_field requester_endpoint ++ be_bytes 8 expires_at)))

unfoldable pub service_grant_issue_message : Bytes → Bytes → Bytes → ℕ → Bytes
unfolding push_field
service_grant_issue_message request_id resource_id requester_endpoint expires_at =
    issue_prefix
    ++ (push_field request_id
        ++ (push_field resource_id ++ (push_field requester_endpoint ++ be_bytes 8 expires_at)))
