-- ===== src/Kms/Renewal.antt =====
-- What `do` of kms/openbao.go does on a 403, and what derivation contexts share.
use Prim.Native.String
use text.Mathlib.TextLemmas.{append_assoc}
use omkit_go.Prelude.{String, ◌≡◌, ◌≢◌, refl, ap, true, some, ◌∷◌, arith, eq_iff}
use omkit_go.Prelude.Int.{◌+ℤ◌}
use omkit_go.Crypto.{Bytes}
use omkit_go.Kms.OpenBao.{
  Method, post, Request, response, auth, ok, failed, Login, Env, Client, result_of, do_raw,
  keep_token, login, is_fresh, get_token, do_with, retry, do_call, do_request, lease_of, Base64,
  derived_context,
}
use omkit_go.Kms.Transit.{decrypt_with, unwrap_dek}

abbrev pub call_with : Method → String → String → String → Request
call_with method path body token = record {
  method = method;
  path = path;
  token = token;
  body = body;
}

abbrev pub login_call : Env → Client → Request
login_call env o =
    call_with post "/v1/auth/approle/login" (env.codec.credentials o.role_id o.secret_id) ""

login-renews :
    (env : Env) (o : Client) (reply : String) (l : Login)
    → ◌≢◌ {A = String} l.client_token ""
    → env.server (login_call env o ∷ o.sent) ≡ response 200 reply
    → env.codec.login reply ≡ some l
    → login env o ≡ (
      record o {
        token = l.client_token;
        token_expiry = env.clock (login_call env o ∷ o.sent) +ℤ lease_of l.lease_duration;
        sent = login_call env o ∷ o.sent;
      },
      ok l.client_token,
    )
unfolding login do_raw keep_token result_of
login-renews env o reply l named granted decoded =
    rw (login, granted) (ground (arith, decoded, named, eq_iff l.client_token ""))

refused-call :
    (env : Env) (method : Method) (path body text : String) (o : Client)
    → env.server (call_with method path body o.token ∷ o.sent) ≡ response 403 text
    → do_raw env method path o.token body o
      ≡ (record o { sent = call_with method path body o.token ∷ o.sent }, failed (auth 403))
unfolding do_raw result_of
refused-call env method path body text o refused = rw (do_raw, refused) refl

-- Where the call that a fresh token makes is answered by 403, and the login after it by a token that
-- is not "", `do` sends the call, the login and the call again with the new token, returns what the
-- server replies to the last, and keeps the new token with its lease, counted from the login.
pub do_request-renews :
    (env : Env) (method : Method) (path body : String) (o : Client) (text reply : String)
    (l : Login)
    → is_fresh env o ≡ true
    → ◌≢◌ {A = String} l.client_token ""
    → env.server (call_with method path body o.token ∷ o.sent) ≡ response 403 text
    → env.server (login_call env o ∷ call_with method path body o.token ∷ o.sent)
      ≡ response 200 reply
    → env.codec.login reply ≡ some l
    → let asked = login_call env o ∷ call_with method path body o.token ∷ o.sent in
      let again = call_with method path body l.client_token ∷ asked in
      let done = do_request env method path body o in
      (done.0.sent ≡ again)
      × (done.1 ≡ result_of (env.server again))
      × (done.0.token ≡ l.client_token)
      × (done.0.token_expiry ≡ env.clock asked +ℤ lease_of l.lease_duration)
unfolding do_request do_call get_token retry is_fresh do_with do_raw
do_request-renews env method path body o text reply l fresh named refused granted decoded =
    let dropped : Client = record o {
      token = "";
      sent = call_with method path body o.token ∷ o.sent;
    } in
    let logged = login-renews env dropped reply l named granted decoded in
    rw (do_request, get_token, fresh)
      (rw (refused-call env method path body text o refused) (rw logged (refl, refl, refl, refl)))

-- The derivation context of OpenBao is the same for the user "u:p" with the purpose "q" and for the
-- user "u" with the purpose "p:q": what the server unwraps for the one it unwraps for the other.
pub derived_context-shared :
    (base64 : Base64) (u p q : String) (aad : Bytes)
    → derived_context base64 (String.◌++◌ u (String.◌++◌ ":" p)) q aad
      ≡ derived_context base64 u (String.◌++◌ p (String.◌++◌ ":" q)) aad
unfolding derived_context
derived_context-shared base64 u p q aad =
    let last = String.◌++◌ ":" (base64.encode aad) in
    let rest = String.◌++◌ ":" (String.◌++◌ q last) in
    let left = append_assoc u (String.◌++◌ ":" p) rest in
    let left' = append_assoc ":" p rest in
    let right = append_assoc p (String.◌++◌ ":" q) last in
    let right' = append_assoc ":" q last in
    ap (λ (t : String). base64.encode (base64.bytes_of t)) cc

pub unwrap_dek-shared :
    (env : Env) (u p q : String) (wrapped : String) (aad : Bytes) (o : Client)
    → unwrap_dek env (String.◌++◌ u (String.◌++◌ ":" p)) q wrapped aad o
      ≡ unwrap_dek env u (String.◌++◌ p (String.◌++◌ ":" q)) wrapped aad o
unfolding unwrap_dek
unwrap_dek-shared env u p q wrapped aad o =
    ap (λ (context : String). decrypt_with env o.key_name wrapped context o)
      (derived_context-shared env.base64 u p q aad)
