-- ===== src/Integrations/Storage.antt =====
-- app/integrations/storage.py. Bytes are numbers below 256; S3 itself is `upload_file` and
-- `presigned_url` of `Env`.
use paycore_backend.Base.{
  ℕ, ◌*◌, String, Bool, true, false, ◌&&◌, Option, none, some, List, [], ◌∷◌, ◌==◌, if◌then◌else◌,
}
use paycore_backend.Base.Table.{take, length}
use paycore_backend.Core.Errors.{external_service}
use paycore_backend.Database.{Query, or_raise}
use paycore_backend.Session.{Env, Action, pure, raise}

abbrev pub max_file_size : ℕ
max_file_size = 5 * 1024 * 1024

-- _MAGIC: the leading bytes of each format.
abbrev pub magic : List (List ℕ × String)
magic =
    (0xff ∷ 0xd8 ∷ 0xff ∷ [], "image/jpeg")
    ∷ (0x89 ∷ 0x50 ∷ 0x4e ∷ 0x47 ∷ [], "image/png")
    ∷ (0x25 ∷ 0x50 ∷ 0x44 ∷ 0x46 ∷ [], "application/pdf")
    ∷ []

unfoldable pub same_bytes : List ℕ → List ℕ → Bool
same_bytes [] [] = true
same_bytes [] (y ∷ m) = false
same_bytes (x ∷ l) [] = false
same_bytes (x ∷ l) (y ∷ m) = x == y && same_bytes l m

unfoldable pub match_magic : List (List ℕ × String) → List ℕ → Option String
match_magic [] data_bytes = none
match_magic ((bytes, mime) ∷ rest) data_bytes =
    if same_bytes (take (length bytes) data_bytes) bytes
    then some mime
    else match_magic rest data_bytes

unfoldable pub detect_mime_type : List ℕ → Option String
detect_mime_type data_bytes = match_magic magic data_bytes

unfoldable pub upload_file : Env → String → Action String
upload_file env key s = if env.upload_file key then pure key s else raise external_service s

unfoldable pub get_presigned_url : Env → String → Query String
get_presigned_url env key = or_raise (env.presigned_url key) external_service
