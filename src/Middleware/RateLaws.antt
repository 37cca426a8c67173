-- ===== src/Middleware/RateLaws.antt =====
-- How many requests the limiter lets through in a window, and that addresses do not share tokens.
use omkit_go.Prelude.{
  ℕ, zero, suc, String, ◌≡◌, refl, ◌∙◌, ap, sym, not, ◌≢◌, Bool, true, false, Option, none, some,
  List, [], ◌∷◌, lookup, insert, lookup-insert, lookup-insert_self, length, All, Option-cases, inl,
  inr, arith, leb, if◌then◌else◌, eq_iff,
}
use omkit_go.Prelude.Int.{ℤ, pos, ◌+ℤ◌, ◌-ℤ◌, ◌≤ℤ◌, leb_ℤ, ltb_ℤ}
use omkit_go.Middleware.{Bucket, IpRateLimiter, allow, fresh_bucket, take_token}

-- How many of the requests of one address at the given times are let through.
unfoldable pub passed : String → List ℤ → IpRateLimiter → ℕ
passed ip [] l = 0
passed ip (t ∷ ts) l =
    let (l', ok) = allow ip t l in let rest = passed ip ts l' in if ok then suc rest else rest

abbrev pub min_ℕ : ℕ → ℕ → ℕ
min_ℕ a b = if leb a b then a else b

-- None of the times is after the limit.
abbrev pub Until : ℤ → List ℤ → Type 0
Until limit ts = All (λ (t : ℤ). t ≤ℤ limit) ts

abbrev bucket : ℤ → ℤ → Bucket
bucket tokens reset = record { tokens = tokens; reset_at = reset }

abbrev with_bucket : String → Bucket → IpRateLimiter → IpRateLimiter
with_bucket ip b l = record l { buckets = insert ip b l.buckets }

allow-empty :
    (ip : String) (t reset : ℤ) (l : IpRateLimiter)
    → lookup ip l.buckets ≡ some (bucket (pos 0) reset)
    → t ≤ℤ reset
    → allow ip t l ≡ (l, false)
unfolding allow take_token
allow-empty ip t reset l h k = rw (allow, h) (ground arith)

pred_suc : (n : ℕ) → pos (suc n) -ℤ pos 1 ≡ pos n
unfolding ◌-ℤ◌
pred_suc n = ground arith

allow-suc :
    (ip : String) (t reset : ℤ) (l : IpRateLimiter) (n : ℕ)
    → lookup ip l.buckets ≡ some (bucket (pos (suc n)) reset)
    → t ≤ℤ reset
    → allow ip t l ≡ (with_bucket ip (bucket (pos n) reset) l, true)
unfolding allow take_token
allow-suc ip t reset l n h k = rw (allow, h) (ground (arith, pred_suc n))

passed-bucket :
    (ip : String) (ts : List ℤ) (l : IpRateLimiter) (n : ℕ) (reset : ℤ)
    → lookup ip l.buckets ≡ some (bucket (pos n) reset)
    → Until reset ts
    → passed ip ts l ≡ min_ℕ n (length ts)
unfolding passed
passed-bucket ip [] l n reset h u = ground arith
passed-bucket ip (t ∷ ts) l zero reset h (k, u) =
    ground (arith, allow-empty ip t reset l h k, passed-bucket ip ts l 0 reset h u)
passed-bucket ip (t ∷ ts) l (suc n) reset h (k, u) =
    let next = with_bucket ip (bucket (pos n) reset) l in
    ground (
      arith,
      allow-suc ip t reset l n h k,
      passed-bucket ip ts next n reset (lookup-insert_self ip (bucket (pos n) reset) l.buckets) u,
    )

allow-new :
    (ip : String) (t : ℤ) (l : IpRateLimiter) (n : ℕ)
    → lookup ip l.buckets ≡ none
    → l.capacity ≡ pos (suc n)
    → allow ip t l ≡ (with_bucket ip (bucket (pos n) (t +ℤ l.window)) l, true)
unfolding allow fresh_bucket
allow-new ip t l n h c = rw (allow, h) (rw c (rw (pred_suc n) refl))

-- With a capacity of at least 1, an address that the limiter does not know yet gets through as many
-- requests as the capacity says, and no more, until a window has passed since the first.
pub passed_lem :
    (ip : String) (t : ℤ) (ts : List ℤ) (l : IpRateLimiter) (n : ℕ)
    → lookup ip l.buckets ≡ none
    → l.capacity ≡ pos (suc n)
    → Until (t +ℤ l.window) ts
    → passed ip (t ∷ ts) l ≡ min_ℕ (suc n) (length (t ∷ ts))
unfolding passed
passed_lem ip t ts l n h c u =
    let b = bucket (pos n) (t +ℤ l.window) in
    ground (
      arith,
      allow-new ip t l n h c,
      passed-bucket ip ts (with_bucket ip b l) n (t +ℤ l.window) (lookup-insert_self ip b l.buckets)
          u,
    )

lookup-allow :
    (ip other : String) (t : ℤ) (l : IpRateLimiter)
    → other ≢ ip
    → lookup other (allow ip t l).0.buckets ≡ lookup other l.buckets
unfolding allow take_token fresh_bucket
lookup-allow ip other t l n = elim (Option-cases (lookup ip l.buckets)) [
  | inl e ↦
      rw (allow, e)
        (ground (
          arith,
          eq_iff ip other,
          lookup-insert ip other (bucket (l.capacity -ℤ pos 1) (t +ℤ l.window)) l.buckets,
        ))
  | inr (b, e) ↦
      rw (allow, e)
        (ground (
          arith,
          eq_iff ip other,
          lookup-insert ip other (bucket (l.capacity -ℤ pos 1) (t +ℤ l.window)) l.buckets,
          lookup-insert ip other (bucket (b.tokens -ℤ pos 1) b.reset_at) l.buckets,
        ))
]

verdict : ℤ → Option Bucket → Bool
verdict t none = true
verdict t (some b) = if ltb_ℤ b.reset_at t then true else not (leb_ℤ b.tokens (pos 0))

allow-verdict :
    (ip : String) (t : ℤ) (l : IpRateLimiter) → (allow ip t l).1 ≡ verdict t (lookup ip l.buckets)
unfolding allow take_token fresh_bucket verdict
allow-verdict ip t l = elim (Option-cases (lookup ip l.buckets)) [
  | inl e ↦ rw (allow, e)
  | inr (b, e) ↦ rw (allow, e) (ground arith)
]

-- A request of one address changes no bucket of another, so whether a request of the other gets
-- through does not depend on it.
pub allow-other :
    (ip other : String) (t t' : ℤ) (l : IpRateLimiter)
    → other ≢ ip
    → (lookup other (allow ip t l).0.buckets ≡ lookup other l.buckets)
      × ((allow other t' (allow ip t l).0).1 ≡ (allow other t' l).1)
allow-other ip other t t' l n =
    let same = lookup-allow ip other t l n in
    (
      same,
      allow-verdict other t' (allow ip t l).0
          ∙ (ap (verdict t') same ∙ sym (allow-verdict other t' l)),
    )
