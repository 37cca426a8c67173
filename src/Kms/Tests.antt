-- ===== src/Kms/Tests.antt =====
-- The theorems on the key services, with an HMAC that is constant and a server that grants logins.
use omkit_go.Prelude.{
  ℕ, String, ◌≡◌, ◌≢◌, ◌≤◌, refl, true, none, some, [], ◌∷◌, length, arith, eq_iff, if◌then◌else◌,
  ◌==◌,
}
use omkit_go.Prelude.Int.{pos, ◌+ℤ◌, ◌-ℤ◌}
use omkit_go.Crypto.Tests.{tagged, tagged-Lawful, key, nonce}
use omkit_go.Crypto.{Bytes}
use omkit_go.Kms.Binding.{bind_aad-injective}
use omkit_go.Kms.LocalDev.{unwrap_dek-confused}
use omkit_go.Kms.OpenBao.{
  get, response, Env, Client, Base64, Codec, Login, result_of, is_fresh, do_request, lease_of,
}
use omkit_go.Kms.Renewal.{call_with, login_call, do_request-renews}
use omkit_go.Kms.{wrap_version, wrap_dek, unwrap_dek}

unwrap_dek-confused_example :
    (wrapped : Bytes) × (wrap_dek tagged
        (λ k m. key)
        []
        (some nonce)
        (97 ∷ 45 ∷ 98 ∷ 124 ∷ 97 ∷ [])
        (98 ∷ [])
        (3 ∷ [])
        []
      ≡ some (wrapped, wrap_version))
    × (unwrap_dek tagged (λ k m. key) [] (97 ∷ []) (98 ∷ 124 ∷ 97 ∷ 45 ∷ 98 ∷ []) wrapped []
        ≡ some (3 ∷ []))
unwrap_dek-confused_example =
    unwrap_dek-confused tagged (λ k m. key) [] nonce (97 ∷ []) (98 ∷ []) (3 ∷ []) [] tagged-Lawful
      (λ k m. refl) refl

no_bar : (n : ℕ) → n ≤ 100 → n ≢ 124
no_bar n h e = omega arith

abbrev one : Bytes
one = 1 ∷ []

abbrev two : Bytes
two = 2 ∷ []

bind_aad-injective_example : (one ≡ one) × (two ≡ two) × (one ≡ one)
bind_aad-injective_example =
    bind_aad-injective one two one one two one (no_bar 1 (omega arith), tt)
      (no_bar 2 (omega arith), tt) (no_bar 1 (omega arith), tt) (no_bar 2 (omega arith), tt) refl

abbrev granted : Login
granted = record { client_token = "t2"; lease_duration = pos 60 }

abbrev codec : Codec
codec = record {
  credentials = λ r s. r;
  login = λ b. some granted;
  pair = λ f v c. v;
  reply = λ f b. none;
  tombstone = "{}";
  shown = λ n. "1";
}

abbrev base64 : Base64
base64 = record { encode = λ b. ""; decode = λ s. some []; bytes_of = λ s. [] }

-- The token t1 is refused.
abbrev env : Env
env = record {
  server = λ rs. elim rs [
    | [] ↦ response 500 ""
    | r ∷ rest ↦ if r.token == "t1" then response 403 "denied" else response 200 "ok"
  ];
  clock = λ rs. pos (length rs);
  codec = codec;
  base64 = base64;
}

abbrev client : Client
client = record {
  role_id = "r";
  secret_id = "s";
  key_name = "k";
  token = "t1";
  token_expiry = pos 40_000_000_000;
  sent = [];
}

fresh : is_fresh env client ≡ true
unfolding is_fresh ◌-ℤ◌
fresh = refl

named : ◌≢◌ {A = String} "t2" ""
named = λ e. ground (arith, e, eq_iff "t2" "")

do_request-renews_example :
    let asked = login_call env client ∷ call_with get "/v1/x" "" "t1" ∷ [] in
    let again = call_with get "/v1/x" "" "t2" ∷ asked in
    let done = do_request env get "/v1/x" "" client in
    (done.0.sent ≡ again)
    × (done.1 ≡ result_of (env.server again))
    × (done.0.token ≡ "t2")
    × (done.0.token_expiry ≡ env.clock asked +ℤ lease_of (pos 60))
do_request-renews_example =
    do_request-renews env get "/v1/x" "" client "denied" "ok" granted fresh named refl refl refl
