-- ===== src/Config.antt =====
-- config/config.go: the settings that services read from their environment. The environment is a
-- function from names to values, "" where a variable is not set; what strconv, strings.ToLower and
-- the bytes of a text are is a parameter.
pub mod Laws
use Prim.Native.String
use omkit_go.Prelude.{
  String, Bool, true, false, ◌||◌, Option, none, some, List, [], map, if◌then◌else◌, ◌==◌,
}
use omkit_go.Prelude.Int.{ℤ, pos}
use omkit_go.Crypto.{Bytes}
use omkit_go.Middleware.Groups.{split}

pub record Std : Type 0 where
  pub getenv : String → String
  pub atoi : String → Option ℤ
  pub parse_int64 : String → Option ℤ
  pub to_lower : String → String
  pub decimal : ℤ → String
  pub bytes : String → Bytes
  pub text : Bytes → String

pub record Base : Type 0 where
  pub mode : String
  pub tenant_token : String
  pub settings_key : String
  pub app_version : String
  pub cors_origins : String
  pub postgres_host : String
  pub postgres_port : ℤ
  pub postgres_db : String
  pub postgres_user : String
  pub postgres_password : String
  pub valkey_host : String
  pub valkey_port : ℤ
  pub valkey_password : String
  pub ollama_host : String
  pub ollama_chat_model : String

unfoldable pub env_str : Std → String → String → String
env_str std key fallback = let v = std.getenv key in if v == "" then fallback else v

-- A number that does not parse is the fallback.
abbrev pub or_else : Option ℤ → ℤ → ℤ
or_else none fallback = fallback
or_else (some n) fallback = n

unfoldable pub env_int : Std → String → ℤ → ℤ
env_int std key fallback =
    let v = std.getenv key in if v == "" then fallback else or_else (std.atoi v) fallback

unfoldable pub env_int64 : Std → String → ℤ → ℤ
env_int64 std key fallback =
    let v = std.getenv key in if v == "" then fallback else or_else (std.parse_int64 v) fallback

unfoldable pub truth : String → Bool → Bool
truth v fallback =
    if (v == "true") || ((v == "1") || (v == "yes"))
    then true
    else if (v == "false") || ((v == "0") || (v == "no"))
    then false
    else fallback

unfoldable pub env_bool : Std → String → Bool → Bool
env_bool std key fallback =
    let v = std.getenv key in if v == "" then fallback else truth (std.to_lower v) fallback

unfoldable pub load : Std → Base
load std = record {
  mode = env_str std "RUNTIME_MODE" "standalone";
  tenant_token = env_str std "TENANT_TOKEN" "";
  settings_key = env_str std "SETTINGS_KEY" "";
  app_version = env_str std "APP_VERSION" "dev";
  cors_origins = env_str std "CORS_ORIGINS" "";
  postgres_host = env_str std "POSTGRES_HOST" "pgbouncer";
  postgres_port = env_int std "POSTGRES_PORT" (pos 6432);
  postgres_db = env_str std "POSTGRES_DB" "";
  postgres_user = env_str std "POSTGRES_USER" "";
  postgres_password = env_str std "POSTGRES_PASSWORD" "";
  valkey_host = env_str std "VALKEY_HOST" "valkey";
  valkey_port = env_int std "VALKEY_PORT" (pos 6379);
  valkey_password = env_str std "VALKEY_PASSWORD" "";
  ollama_host = env_str std "OLLAMA_HOST" "http://ollama:11434";
  ollama_chat_model = env_str std "OLLAMA_CHAT_MODEL" "qwen3:8b";
}

infixl 60 ◌+s◌
abbrev pub ◌+s◌ : String → String → String
a +s b = String.◌++◌ a b

unfoldable pub postgres_dsn : Std → Base → String
postgres_dsn std b =
    "postgres://"
    +s b.postgres_user
    +s ":"
    +s b.postgres_password
    +s "@"
    +s b.postgres_host
    +s ":"
    +s std.decimal b.postgres_port
    +s "/"
    +s b.postgres_db

unfoldable pub valkey_addr : Std → Base → String
valkey_addr std b = b.valkey_host +s ":" +s std.decimal b.valkey_port

unfoldable pub cors_origins_list : Std → Base → List String
cors_origins_list std b =
    if b.cors_origins == "" then [] else map std.text (split 44 (std.bytes b.cors_origins))
