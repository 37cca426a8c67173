-- ===== src/Dbpool/Tests.antt =====
-- The theorem on the role of a pool, over a database that is a number.
use omkit_go.Prelude.{ℕ, true, false, none, List, [], ◌∷◌}
use omkit_go.Prelude.Int.{pos}
use omkit_go.Dbpool.Roles.{Use, for_tenant, for_query, privileged}
use omkit_go.Dbpool.{Config, Work}

abbrev insert_row : Work ℕ
insert_row = λ view. (8, false)

abbrev refuse : Work ℕ
refuse = λ view. (9, true)

abbrev config : Config
config = record { dsn = "postgres://db"; role = "crm_app"; max_conns = pos 0 }

abbrev uses : List (Use ℕ)
uses =
    for_tenant none "acme" insert_row
    ∷ privileged none "eraser" insert_row
    ∷ for_query none "acme" refuse
    ∷ []
