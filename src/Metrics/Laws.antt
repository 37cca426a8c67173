-- ===== src/Metrics/Laws.antt =====
-- Which status is counted.
use omkit_go.Prelude.{
  ℕ, ◌≤◌, String, ◌≡◌, refl, Bool, true, false, ◌&&◌, List, [], ◌∷◌, contains, leb, if◌then◌else◌,
  Bool-cases, inl, inr, arith,
}
use omkit_go.Prelude.Int.{ℤ}
use omkit_go.Metrics.{
  Recorded, Request, Write, write_header, write_body, sent_status, recorded_status,
  http_middleware_with_exclusions,
}

abbrev pub only_body : List Write → Bool
only_body [] = true
only_body (write_body ∷ ws) = only_body ws
only_body (write_header code ∷ ws) = false

-- The header is written at most once, before the body, and is no informational one.
abbrev pub writes_once : List Write → Bool
writes_once [] = true
writes_once (write_body ∷ ws) = only_body ws
writes_once (write_header code ∷ ws) = leb 200 code && only_body ws

recorded_status-only_body :
    (status : ℕ) (ws : List Write) → only_body ws ≡ true → recorded_status status ws ≡ status
unfolding recorded_status
recorded_status-only_body status [] h = refl
recorded_status-only_body status (write_body ∷ ws) h = recorded_status-only_body status ws h
recorded_status-only_body status (write_header code ∷ ws) h = absurd (ground (arith, h))

recorded-sent : (ws : List Write) → writes_once ws ≡ true → recorded_status 200 ws ≡ sent_status ws
unfolding recorded_status sent_status
recorded-sent [] h = refl
recorded-sent (write_body ∷ ws) h = recorded_status-only_body 200 ws h
recorded-sent (write_header code ∷ ws) h =
    ground (arith, h, recorded_status-only_body code ws (ground (arith, h)))

-- Where a handler writes its header at most once, first, and with no informational code, the
-- middleware passes its calls on and counts the request once, under the status that the client
-- sees, unless the path is one of those left out.
pub http_middleware_lem :
    (service : String) (exclude : List String) (next : Request → List Write) (start stop : ℤ)
    (r : Request) (seen : Recorded)
    → writes_once (next r) ≡ true
    → let (calls, after) = http_middleware_with_exclusions service exclude next start stop r seen in
      (calls ≡ next r)
      × (after.requests ≡ (
          if contains r.path exclude
          then seen.requests
          else record { service = service; method = r.method; code = sent_status (next r) }
            ∷ seen.requests))
unfolding http_middleware_with_exclusions
http_middleware_lem service exclude next start stop r seen h =
    elim (Bool-cases (contains r.path exclude)) [
      | inl c ↦ rw c (refl, refl)
      | inr c ↦ rw c (rw (recorded-sent (next r) h) (refl, refl))
    ]

-- A handler that writes its header a second time is counted under the second code, which the client
-- never sees.
pub recorded_second :
    (first second : ℕ) (ws : List Write)
    → 200 ≤ first
    → only_body ws ≡ true
    → (sent_status (write_header first ∷ write_header second ∷ ws) ≡ first)
      × (recorded_status 200 (write_header first ∷ write_header second ∷ ws) ≡ second)
unfolding sent_status recorded_status
recorded_second first second ws h k = (ground (arith, h), recorded_status-only_body second ws k)
