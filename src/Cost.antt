-- ===== src/Cost.antt =====
-- cost/cost.go. `F` is float64 and `not_positive` its test against 0. The counter is the list of what
-- was added to it, with the labels, the latest first; `fails` is whether the addition panics, which
-- is recovered from.
use omkit_go.Prelude.{
  String, ◌≡◌, refl, inl, inr, Bool, true, false, List, [], ◌∷◌, contains, if◌then◌else◌,
  Bool-cases, All,
}

pub record Labels : Type 0 where
  pub service : String
  pub provider : String
  pub op : String
  pub tenant_bucket : String

abbrev pub valid_buckets : List String
valid_buckets = "system" ∷ "trial" ∷ "paid" ∷ []

unfoldable pub bucket_of : String → String
bucket_of tenant_bucket = if contains tenant_bucket valid_buckets then tenant_bucket else "trial"

module _ {F : Type 0} (not_positive : F → Bool) (fails : Bool) where
  unfoldable pub record_cost :
      (service provider op : String)
      → F
      → (tenant_bucket : String) → List (Labels × F)
      → List (Labels × F)
  unfolding bucket_of
  record_cost service provider op units tenant_bucket added =
      if not_positive units
      then added
      else if fails
      then added
      else (
        record {
          service = service;
          provider = provider;
          op = op;
          tenant_bucket = bucket_of tenant_bucket;
        },
        units,
      )
        ∷ added

  -- Every bucket in the counter is one of the three, and every addition is positive.
  abbrev pub IsBounded : List (Labels × F) → Type 0
  IsBounded added =
      All
        (λ (entry : Labels × F).
          (contains entry.0.tenant_bucket valid_buckets ≡ true) × (not_positive entry.1 ≡ false))
        added

  bucket_of-valid : (b : String) → contains (bucket_of b) valid_buckets ≡ true
  unfolding bucket_of
  bucket_of-valid b = elim (Bool-cases (contains b valid_buckets)) [
    | inl t ↦ rw t t
    | inr f ↦ rw f refl
  ]

  -- A tenant's own name never becomes a label, and the counter does not fall.
  pub record_cost-IsBounded :
      (service provider op : String) (units : F) (tenant_bucket : String)
      (added : List (Labels × F))
      → IsBounded added
      → IsBounded (record_cost service provider op units tenant_bucket added)
  unfolding record_cost
  record_cost-IsBounded service provider op units tenant_bucket added h =
      elim (Bool-cases (not_positive units)) [
        | inl n ↦ rw n h
        | inr n ↦ elim (Bool-cases fails) [
          | inl f ↦ rw (n, f) h
          | inr f ↦ rw (n, f) ((bucket_of-valid tenant_bucket, n), h)
        ]
      ]
