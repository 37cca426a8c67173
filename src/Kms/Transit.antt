-- ===== src/Kms/Transit.antt =====
-- The operations of kms/openbao.go on the Transit engine.
use Prim.Native.String
use omkit_go.Prelude.{String, Option, none, some}
use omkit_go.Crypto.{Bytes}
use omkit_go.Kms.OpenBao.{
  post, get, Error, unavailable, Result, ok, failed, Env, Client, do_request, derived_context,
  Sealed, sealed_of, opened_of, version_of,
}

unfoldable pub encrypt_with : Env → String → Bytes → String → Client → Client × Sealed
encrypt_with env key_name plaintext context o =
    let (o', reply) =
      do_request env post (String.◌++◌ "/v1/transit/encrypt/" key_name)
        (env.codec.pair "plaintext" (env.base64.encode plaintext) context) o in
    (o', sealed_of env reply)

unfoldable pub decrypt_with : Env → String → String → String → Client → Client × Sealed
decrypt_with env key_name ciphertext context o =
    let (o', reply) =
      do_request env post (String.◌++◌ "/v1/transit/decrypt/" key_name)
        (env.codec.pair "ciphertext" ciphertext context) o in
    (o', opened_of env reply)

unfoldable pub wrap : Env → (key_id : String) → Bytes → Bytes → Client → Client × Sealed
wrap env key_id plaintext aad o = encrypt_with env key_id plaintext (env.base64.encode aad) o

unfoldable pub unwrap : Env → (key_id : String) → String → Bytes → Client → Client × Sealed
unwrap env key_id blob aad o = decrypt_with env key_id blob (env.base64.encode aad) o

unfoldable pub wrap_dek :
    Env → (user_id purpose : String) → Bytes → Bytes → Client → Client × Sealed
wrap_dek env user_id purpose plain_dek aad o =
    encrypt_with env o.key_name plain_dek (derived_context env.base64 user_id purpose aad) o

unfoldable pub unwrap_dek :
    Env → (user_id purpose : String) → String → Bytes → Client → Client × Sealed
unwrap_dek env user_id purpose wrapped aad o =
    decrypt_with env o.key_name wrapped (derived_context env.base64 user_id purpose aad) o

unfoldable pub version_in : Env → Result → Result
version_in env (failed e) = failed e
version_in env (ok body) = elim (env.codec.reply "latest_version" body) [
  | none ↦ failed (unavailable 0)
  | some r ↦ ok (version_of env r.version)
]

unfoldable pub current_version : Env → (key_id : String) → Client → Client × Result
current_version env key_id o =
    let (o', reply) = do_request env get (String.◌++◌ "/v1/transit/keys/" key_id) "" o in
    (o', version_in env reply)

-- The tombstone of a user; what the server replies is dropped.
unfoldable pub delete_user_keys : Env → (user_id : String) → Client → Client × Option Error
delete_user_keys env user_id o =
    let (o', reply) =
      do_request env post (String.◌++◌ "/v1/secret/data/omur/shredded/" user_id) env.codec.tombstone
        o in
    (o', elim reply [ ok body ↦ none | failed e ↦ some e ])
