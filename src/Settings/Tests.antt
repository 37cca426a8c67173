-- ===== src/Settings/Tests.antt =====
-- The theorems on settings, over a table of three rows, one of them secret.
use omkit_go.Prelude.{
  String, ◌≡◌, ◌≢◌, refl, true, false, none, some, List, [], ◌∷◌, ◌++◌, lookup, arith, eq_iff, inl,
  inr,
}
use omkit_go.Prelude.Int.{pos}
use omkit_go.Settings.Cache.{Json, start, worker_of, polling}
use omkit_go.Settings.Changes.{public, assigned, announced, poll_once_lem, secrets-Hides}
use omkit_go.Settings.PollLoop.{Branch, ticked, poll_loop, poll_loop-settles}
use omkit_go.Settings.{
  Manager, Row, Scanned, scanned, unreadable, answered, query_failed, backend_postgres, poll_once,
  poll_answer, load_from_db, select,
}

abbrev manager : Manager
manager = record {
  cache = ("theme", "dark") ∷ [];
  listeners = ("theme", 7 ∷ 8 ∷ []) ∷ [];
  cache_path = "/tmp/settings";
  db = true;
  valkey = false;
  tenant_id = "acme";
  service = "";
  poll_interval = pos 5_000_000_000;
  poll_last_seen = pos 10;
  backend = backend_postgres;
  stopped = false;
}

abbrev theme : Row
theme = record { key = "theme"; value_json = "light"; is_secret = false; updated_at = pos 12 }

abbrev token : Row
token = record { key = "token"; value_json = "hunter2"; is_secret = true; updated_at = pos 14 }

abbrev late : Row
late = record { key = "lang"; value_json = "de"; is_secret = false; updated_at = pos 9 }

abbrev table : List Row
table = late ∷ theme ∷ token ∷ []

abbrev results : List Scanned
results = scanned theme ∷ unreadable ∷ scanned token ∷ []

poll_once_lem_example :
    let polled = poll_once (λ v. none) (answered results false) manager in
    ((k : String)
      → lookup k polled.0.cache ≡ assigned k (public (λ v. none) results) (lookup k manager.cache))
    × (polled.1.0 ≡ announced manager.listeners (public (λ v. none) results))
    × (polled.1.1 ≡ false)
poll_once_lem_example = poll_once_lem (λ v. none) results false manager

theme_token : ◌≢◌ {A = String} "theme" "token"
theme_token = λ e. ground (arith, e, eq_iff "theme" "token")

secrets-Hides_example :
    (lookup "token" (poll_once (λ v. none) (answered results false) manager).0.cache
      ≡ lookup "token" manager.cache)
    × (lookup "token" (load_from_db (λ v. none) (answered results false) manager).0.cache
        ≡ lookup "token" manager.cache)
secrets-Hides_example =
    secrets-Hides (λ v. none) "token" (answered results false) manager
      (inr theme_token, (tt, (inl refl, tt)))

abbrev bumpy : List Branch
bumpy = ticked query_failed ∷ ticked (answered results true) ∷ []

poll_loop-settles_example :
    let answer = poll_answer table (poll_loop (λ v. none) bumpy manager).0 in
    let m' = (poll_loop (λ v. none) (bumpy ++ ticked answer ∷ []) manager).0 in
    (select m'.poll_last_seen table ≡ [])
    × (poll_once (λ v. none) (poll_answer table m') m' ≡ (m', ([], false)))
unfolding poll_loop
poll_loop-settles_example = poll_loop-settles (λ v. none) bumpy table manager (omega arith) refl

abbrev json : Json
json = record { marshal = λ m. some "{theme: dark}"; unmarshal = λ s. some manager.cache }

starts_polling : (start (λ v. none) (answered [] false) json false [] manager).1 ≡ polling
unfolding start worker_of
starts_polling = refl
