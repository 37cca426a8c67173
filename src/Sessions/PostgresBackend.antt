-- ===== src/Sessions/PostgresBackend.antt =====
-- The store of sessions/postgres.go refines the contract of Store.
use omkit_go.Prelude.{
  String, ◌≡◌, false, Option, none, some, [], Map, lookup, insert, erase, sym, ◌∙◌, lookup-insert,
  lookup-erase, arith, eq_iff, inl, inr, Option-cases, Bool-cases, refl, ap,
}
use omkit_go.Prelude.Int.{ℤ, ltb_ℤ}
use omkit_go.Sessions.Refinement.{
  Entry, entry_of, Call, stored, deleted, apply, visible, unexpired, seen, Backend, step, Admits,
  Refines,
}
use omkit_go.Sessions.{
  Session, Reply, found, not_found, failed, Columns, Role, superuser, in_tx, sees, get_row,
  check_row, upsert,
}
use omkit_go.Sessions as Postgres

-- The pool without a role, as the contract on row security asks.
abbrev pub postgres : Columns → Backend
postgres cols = record {
  State = Map Session;
  empty = [];
  put = Postgres.put cols superuser none;
  delete = Postgres.delete superuser false;
  get = Postgres.get superuser false;
}

-- A session that the columns keep as it is, of the tenant that owns its token.
abbrev pub Storable : Columns → (String → String) → ℤ → Session → Type 0
Storable cols owner now s =
    (cols.uuid s.tenant_id ≡ some s.tenant_id)
    × (cols.json s.payload ≡ some s.payload)
    × (cols.timestamp s.expires_at ≡ s.expires_at)
    × (s.tenant_id ≡ owner s.token)

abbrev pub entry_at : Option Session → Option Entry
entry_at none = none
entry_at (some row) = some (entry_of row)

module _ (cols : Columns) (owner : String → String) where
  -- Every row shows the entry under its token, and is of the token's owner.
  abbrev pub Rows : Map Session → Map Entry → Type 0
  Rows table m =
      ((k : String) → entry_at (lookup k table) ≡ lookup k m)
      × ((k : String) (row : Session) → lookup k table ≡ some row → row.tenant_id ≡ owner k)

  upserted :
      (now : ℤ) (s : Session) (table : Map Session) (m : Map Entry)
      → Storable cols owner now s
      → Rows table m
      → (row : Session) × (upsert cols superuser now s table ≡ some (insert s.token row table))
        × (entry_of row ≡ entry_of s)
  unfolding upsert sees
  upserted now s table m (u, j, t, o) rel = elim (Option-cases (lookup s.token table)) [
    | inl e ↦ (
      record {
        token = s.token;
        tenant_id = s.tenant_id;
        payload = s.payload;
        created_at = now;
        expires_at = s.expires_at;
      },
      ground (arith, u, j, t, e),
      refl,
    )
    | inr (row, e) ↦
        let same : row.tenant_id ≡ s.tenant_id = rel.1 s.token row e ∙ sym o in
        (
          record row { payload = s.payload; expires_at = s.expires_at },
          ground (arith, u, j, t, e),
          rw same refl,
        )
  ]

  insert-Rows :
      (s row : Session) (table : Map Session) (m : Map Entry)
      → entry_of row ≡ entry_of s
      → s.tenant_id ≡ owner s.token
      → Rows table m
      → Rows (insert s.token row table) (insert s.token (entry_of s) m)
  insert-Rows s row table m e o rel = (
    λ k. ground (
      arith,
      lookup-insert s.token k row table,
      lookup-insert s.token k (entry_of s) m,
      rel.0 k,
      e,
      eq_iff s.token k,
    ),
    λ k x h. ground (
      arith,
      lookup-insert s.token k row table,
      rel.1 k x,
      ap (λ (e : Entry). e.tenant_id) e,
      h,
      o,
      eq_iff s.token k,
    ),
  )

  erase-Rows :
      (token : String) (table : Map Session) (m : Map Entry)
      → Rows table m
      → Rows (erase token table) (erase token m)
  erase-Rows token table m rel = (
    λ k.
        ground (arith, lookup-erase token k table, lookup-erase token k m, rel.0 k, eq_iff token k),
    λ k x h. ground (arith, lookup-erase token k table, rel.1 k x, h, eq_iff token k),
  )

  absent :
      (token : String) (table : Map Session) (m : Map Entry)
      → Rows table m
      → lookup token m ≡ none
      → Rows table (erase token m)
  absent token table m rel n =
      (λ k. ground (arith, n, lookup-erase token k m, rel.0 k, eq_iff token k), rel.1)

  empty-Rows : Rows [] []
  unfolding lookup
  empty-Rows = (λ k. refl, λ k row h. absurd (ground (arith, h)))

  get-Rows :
      (now : ℤ) (token : String) (table : Map Session) (m : Map Entry)
      → Rows table m
      → seen (Postgres.get superuser false now token table) ≡ visible now token m
  unfolding Postgres.get get_row check_row sees unexpired
  get-Rows now token table m rel = elim (Option-cases (lookup token table)) [
    | inl e ↦
        let n : lookup token m ≡ none = sym (rel.0 token) ∙ ap entry_at e in
        rw (unexpired, n) (rw (e) refl)
    | inr (row, e) ↦
        let n : lookup token m ≡ some (entry_of row) = sym (rel.0 token) ∙ ap entry_at e in
        elim (Bool-cases (ltb_ℤ now row.expires_at)) [
          | inl t ↦ rw (unexpired, n) (rw e (rw t refl))
          | inr f ↦ rw (unexpired, n) (rw e (rw f refl))
        ]
  ]

  step-Rows :
      (c : Call) (table : Map Session) (m : Map Entry)
      → Admits (Storable cols owner) c
      → Rows table m
      → Rows (step (postgres cols) c table) (apply c m)
  unfolding Postgres.put Postgres.delete in_tx sees
  step-Rows (stored now s) table m h rel =
      let (row, e, same) = upserted now s table m h rel in
      rw (step, e) (insert-Rows s row table m same h.3 rel)
  step-Rows (deleted token) table m h rel = elim (Option-cases (lookup token table)) [
    | inl e ↦
        let n : lookup token m ≡ none = sym (rel.0 token) ∙ ap entry_at e in
        rw (step, e) (absent token table m rel n)
    | inr (row, e) ↦ rw (step, e) (erase-Rows token table m rel)
  ]

  pub postgres-Refines : Refines (postgres cols) (Storable cols owner) (λ now e. Unit)
  postgres-Refines = record {
    Related = Rows;
    related_empty = empty-Rows;
    related_step = step-Rows;
    get_agrees = λ now token st m rel c. get-Rows now token st m rel;
  }
