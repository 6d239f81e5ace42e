-- ===== src/Engine/Identity.antt =====
-- deterministicID of internal/runtime/engine.go and internal/store/evaluate.go, and uuidFrom of
-- internal/service/service.go.
use Prim.Native.String.{slice}
use alerts.Common.{String, ◌<>◌, List, [], ◌∷◌}

-- The first 32 hexadecimal digits as a UUID.
unfoldable pub uuid_of : String → String
uuid_of raw =
    slice raw 0 8
    <> "-"
    <> slice raw 8 12
    <> "-"
    <> slice raw 12 16
    <> "-"
    <> slice raw 16 20
    <> "-"
    <> slice raw 20 32

-- Each part is followed by a zero byte.
unfoldable pub hash_input : List String → String
hash_input [] = ""
hash_input (part ∷ parts) = part <> "\0" <> hash_input parts

-- The digest is that of crypto/sha256, in hexadecimal.
unfoldable pub deterministic_id : (String → String) → List String → String
unfolding uuid_of hash_input
deterministic_id sha256_hex parts = uuid_of (sha256_hex (hash_input parts))
