-- ===== src/Encryption/Tokens.antt =====
-- Which tokens Decrypt accepts.
use omkit_go.Prelude.{
  ◌≡◌, ◌↔◌, refl, ap, ◌∙◌, sym, true, some, ◌++◌, length, take, arith, length-append, Option-cases,
  inl, inr,
}
use omkit_go.Crypto.Laws.{Lawful, unwrap_iff, unwrap-append, take-drop, eq_bytes_iff}
use omkit_go.Crypto.{Bytes, Aead, drop, eq_bytes, wrap, unwrap}
use omkit_go.Encryption.{Base64, ok, version_prefix, aad, decode_key, encrypt, decrypt_raw, decrypt}

ok_of : (a b : Bytes) → ok a ≡ ok b → a ≡ b
ok_of a b h = ground (arith, h)

joined :
    (raw rest : Bytes)
    → take 2 raw ≡ version_prefix
    → drop 2 raw ≡ rest
    → raw ≡ version_prefix ++ rest
joined raw rest p e =
    sym (take-drop 2 raw)
    ∙ (ap {B = Bytes} (λ xs. xs ++ drop 2 raw) p ∙ ap {B = Bytes} (λ xs. version_prefix ++ xs) e)

decrypt_raw_iff :
    (aead : Aead) (kek raw plain : Bytes)
    → Lawful aead
    → (decrypt_raw aead kek raw ≡ ok plain) ↔ (
        (length kek ≡ 32)
        × ((n : Bytes) × (length n ≡ 12)
            × (raw ≡ version_prefix ++ (n ++ aead.seal kek n plain aad))))
unfolding decrypt_raw
decrypt_raw_iff aead kek raw plain laws = (there, back)
  where
    there :
        decrypt_raw aead kek raw ≡ ok plain
        → (length kek ≡ 32)
          × ((n : Bytes) × (length n ≡ 12)
              × (raw ≡ version_prefix ++ (n ++ aead.seal kek n plain aad)))
    there h =
        let v : eq_bytes (take 2 raw) version_prefix ≡ true = ground (arith, h) in
        let u : unwrap aead kek (drop 2 raw) aad ≡ some plain =
          elim (Option-cases (unwrap aead kek (drop 2 raw) aad)) [
            | inl e ↦ absurd (ground (arith, h, e))
            | inr (p, e) ↦ e ∙ ap (λ (x : Bytes). some x) (ok_of p plain (ground (arith, h, e)))
          ] in
        let (k, (n, l, e)) = (unwrap_iff aead kek (drop 2 raw) aad plain laws).0 u in
        let prefix = (eq_bytes_iff (take 2 raw) version_prefix).0 v in
        (k, (n, l, joined raw _ prefix e))

    back :
        (length kek ≡ 32)
          × ((n : Bytes) × (length n ≡ 12)
              × (raw ≡ version_prefix ++ (n ++ aead.seal kek n plain aad)))
        → decrypt_raw aead kek raw ≡ ok plain
    back (k, (n, l, e)) =
        let u = unwrap-append aead laws kek n plain aad k l in
        let long = laws.length-seal kek n plain aad in
        let long' = length-append n (aead.seal kek n plain aad) in
        rw e (ground (arith, u, long, long', l))

decrypt-decoded :
    (aead : Aead) (base64 : Base64) (token key kek raw : Bytes)
    → base64.decode key ≡ some kek
    → length kek ≡ 32
    → base64.decode token ≡ some raw
    → decrypt aead base64 token key ≡ decrypt_raw aead kek raw
unfolding decrypt decode_key
decrypt-decoded aead base64 token key kek raw e k e' = ground (arith, e, k, e')

-- Decrypt returns a text if and only if the key decodes to 32 bytes and the token decodes to "v1", a
-- nonce of 12 bytes and what Seal returns for the text under that key and nonce and the data
-- "omkit.encryption.v1".
pub decrypt_iff :
    (aead : Aead) (base64 : Base64) (token key plain : Bytes)
    → Lawful aead
    → (decrypt aead base64 token key ≡ ok plain) ↔ (
        (kek : Bytes) × (n : Bytes) × (base64.decode key ≡ some kek)
        × (length kek ≡ 32)
        × (length n ≡ 12)
        × (base64.decode token ≡ some (version_prefix ++ (n ++ aead.seal kek n plain aad))))
unfolding decrypt decode_key
decrypt_iff aead base64 token key plain laws = (there, back)
  where
    there :
        decrypt aead base64 token key ≡ ok plain
        → (kek : Bytes) × (n : Bytes) × (base64.decode key ≡ some kek)
          × (length kek ≡ 32)
          × (length n ≡ 12)
          × (base64.decode token ≡ some (version_prefix ++ (n ++ aead.seal kek n plain aad)))
    there h = elim (Option-cases (base64.decode key)) [
      | inl e ↦ absurd (ground (arith, h, e))
      | inr (kek, e) ↦ elim (Option-cases (base64.decode token)) [
        | inl e' ↦ absurd (ground (arith, h, e, e'))
        | inr (raw, e') ↦
            let k : length kek ≡ 32 = ground (arith, h, e, e') in
            let raw_ok : decrypt_raw aead kek raw ≡ ok plain =
              sym (decrypt-decoded aead base64 token key kek raw e k e') ∙ h in
            let (k', (n, l, r)) = (decrypt_raw_iff aead kek raw plain laws).0 raw_ok in
            (kek, n, e, k, l, e' ∙ ap (λ (x : Bytes). some x) r)
      ]
    ]

    back :
        ((kek : Bytes) × (n : Bytes) × (base64.decode key ≡ some kek)
          × (length kek ≡ 32)
          × (length n ≡ 12)
          × (base64.decode token ≡ some (version_prefix ++ (n ++ aead.seal kek n plain aad))))
        → decrypt aead base64 token key ≡ ok plain
    back (kek, n, e, k, l, e') =
        decrypt-decoded aead base64 token key kek _ e k e'
        ∙ (decrypt_raw_iff aead kek _ plain laws).1 (k, (n, l, refl))

-- Decrypt of the token that Encrypt returns for a text and a key gives the text, for every text, the
-- empty one too, the key being one that decodes to 32 bytes and the nonce having 12 bytes.
pub decrypt-encrypt :
    (aead : Aead) (base64 : Base64) (n plain key kek : Bytes)
    → Lawful aead
    → ((b : Bytes) → base64.decode (base64.encode b) ≡ some b)
    → base64.decode key ≡ some kek
    → length kek ≡ 32
    → length n ≡ 12
    → (token : Bytes) × (encrypt aead base64 (some n) plain key ≡ ok token)
      × (decrypt aead base64 token key ≡ ok plain)
unfolding encrypt wrap decode_key
decrypt-encrypt aead base64 n plain key kek laws inverse d k l = (
  base64.encode (version_prefix ++ (n ++ aead.seal kek n plain aad)),
  ground (arith, d, k),
  (decrypt_iff aead base64 _ key plain laws).1 (kek, n, d, k, l, inverse _),
)
