-- ===== src/Health/Readiness.antt =====
-- When a service is ready, and what it reports.
use omkit_go.Prelude.{
  String, ◌≡◌, refl, ◌∙◌, ap, ◌↔◌, Option, none, some, List, [], ◌∷◌, ◌++◌, arith,
}
use omkit_go.Health.{Probe, Ran, run_probe, run_probes, join, reply_of, ready_handler_with_probes}

-- The name of a probe with an error, in a list of its own.
abbrev failing_name : String → Option (Option String) → List String
failing_name name none = []
failing_name name (some none) = []
failing_name name (some (some e)) = name ∷ []

-- The names of the probes that return an error, in order; a nil check returns none.
abbrev pub failing : List Probe → List String
failing [] = []
failing (p ∷ ps) = failing_name p.name p.check ++ failing ps

append_nil : (xs : List String) → xs ++ [] ≡ xs
append_nil [] = refl
append_nil (x ∷ xs) = ap (λ (ys : List String). x ∷ ys) (append_nil xs)

append_assoc : (xs ys zs : List String) → (xs ++ ys) ++ zs ≡ xs ++ (ys ++ zs)
append_assoc [] ys zs = refl
append_assoc (x ∷ xs) ys zs = ap (λ (ws : List String). x ∷ ws) (append_assoc xs ys zs)

failed-run_probe :
    (name : String) (c : Option (Option String)) (ran : Ran)
    → (run_probe name c ran).failed ≡ ran.failed ++ failing_name name c
unfolding run_probe
failed-run_probe name none ran = rw append_nil
failed-run_probe name (some none) ran = rw append_nil
failed-run_probe name (some (some e)) ran = refl

failed-run_probes :
    (ps : List Probe) (ran : Ran) → (run_probes ps ran).failed ≡ ran.failed ++ failing ps
unfolding run_probes
failed-run_probes [] ran = rw append_nil
failed-run_probes (p ∷ ps) ran =
    let next = run_probe p.name p.check ran in
    failed-run_probes ps next
    ∙ (ap (λ (xs : List String). xs ++ failing ps) (failed-run_probe p.name p.check ran)
        ∙ append_assoc ran.failed (failing_name p.name p.check) (failing ps))

-- The field `failed` of the report on these names.
abbrev pub report : List String → Option String
report [] = none
report (x ∷ xs) = some (join (x ∷ xs))

reply_of_lem :
    (ran : Ran) (names : List String)
    → (((reply_of ran names).status ≡ 200) ↔ (names ≡ []))
      × ((reply_of ran names).failed ≡ report names)
unfolding reply_of
reply_of_lem ran [] = ((λ e. refl, λ e. refl), refl)
reply_of_lem ran (x ∷ xs) = ((λ e. absurd (omega arith), λ e. cc), refl)

-- A service is ready, with status 200, exactly where no probe returns an error, a nil check being
-- passed over; else the report names just the probes that do, in their order, joined by commas.
pub ready_handler_with_probes_iff :
    (probes : List Probe)
    → (((ready_handler_with_probes probes).status ≡ 200) ↔ (failing probes ≡ []))
      × ((ready_handler_with_probes probes).failed ≡ report (failing probes))
unfolding ready_handler_with_probes
ready_handler_with_probes_iff probes =
    let ran = run_probes probes (record { checks = []; failed = [] }) in
    rw (failed-run_probes probes (record { checks = []; failed = [] }))
      (reply_of_lem ran (failing probes))
