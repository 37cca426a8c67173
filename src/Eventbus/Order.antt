-- ===== src/Eventbus/Order.antt =====
-- Lists of events in the order of their ids.
use omkit_go.Prelude.{
  ℕ, zero, suc, ◌≤◌, ◌<◌, String, ◌≡◌, refl, ap, ◌∙◌, true, false, ◌&&◌, List, [], ◌∷◌, ◌++◌, take,
  ltb, Bool-cases, inl, inr, arith, ◌==◌,
}
use omkit_go.Eventbus.{Event, matching}

-- The ids grow strictly, from above `n` on.
abbrev pub Ascending : ℕ → List Event → Type 0
Ascending n [] = Unit
Ascending n (e ∷ es) = (n < e.id) × Ascending e.id es

-- The id of the last event, or `n`.
abbrev pub last_id : ℕ → List Event → ℕ
last_id n [] = n
last_id n (e ∷ es) = last_id e.id es

pub Ascending-le : (m n : ℕ) (es : List Event) → m ≤ n → Ascending n es → Ascending m es
Ascending-le m n [] h a = tt
Ascending-le m n (e ∷ es) h (lt, a) = (omega arith, a)

matching-Ascending :
    (topic : String) (last n : ℕ) (es : List Event)
    → Ascending n es
    → Ascending n (matching topic last es)
unfolding matching
matching-Ascending topic last n [] a = tt
matching-Ascending topic last n (e ∷ es) (lt, a) =
    let ih = matching-Ascending topic last e.id es a in
    elim (Bool-cases (e.topic == topic && ltb last e.id)) [
      | inl t ↦ rw t (lt, ih)
      | inr t ↦ rw t (Ascending-le n e.id (matching topic last es) (omega arith) ih)
    ]

-- What is selected starts above the offset.
pub matching-Ascending_last :
    (topic : String) (last n : ℕ) (es : List Event)
    → Ascending n es
    → Ascending last (matching topic last es)
unfolding matching
matching-Ascending_last topic last n [] a = tt
matching-Ascending_last topic last n (e ∷ es) (lt, a) =
    elim (Bool-cases (e.topic == topic && ltb last e.id)) [
      | inl t ↦ rw t (ground (arith, t), matching-Ascending topic last e.id es a)
      | inr t ↦ rw t (matching-Ascending_last topic last e.id es a)
    ]

-- All the events are of the topic.
abbrev pub OfTopic : String → List Event → Type 0
OfTopic topic [] = Unit
OfTopic topic (e ∷ es) = ((e.topic == topic) ≡ true) × OfTopic topic es

pub matching-OfTopic :
    (topic : String) (last : ℕ) (es : List Event) → OfTopic topic (matching topic last es)
unfolding matching
matching-OfTopic topic last [] = tt
matching-OfTopic topic last (e ∷ es) = elim (Bool-cases (e.topic == topic && ltb last e.id)) [
  | inl t ↦ rw t (ground (arith, t), matching-OfTopic topic last es)
  | inr t ↦ rw t (matching-OfTopic topic last es)
]

-- A later offset selects from what an earlier one has selected.
pub matching-matching :
    (topic : String) (last next : ℕ) (es : List Event)
    → last ≤ next
    → matching topic next (matching topic last es) ≡ matching topic next es
unfolding matching
matching-matching topic last next [] h = refl
matching-matching topic last next (e ∷ es) h =
    ground (arith, matching-matching topic last next es h)

matching_all :
    (topic : String) (n : ℕ) (es : List Event)
    → OfTopic topic es
    → Ascending n es
    → matching topic n es ≡ es
unfolding matching
matching_all topic n es o a = go n n es o a (omega arith)
  where
    go :
        (m n : ℕ) (es : List Event)
        → OfTopic topic es
        → Ascending n es
        → m ≤ n
        → matching topic m es ≡ es
    go m n [] o a h = refl
    go m n (e ∷ es) (oe, o) (lt, a) h = ground (arith, oe, lt, h, go m e.id es o a (omega arith))

pub last_id-le : (n k : ℕ) (es : List Event) → Ascending n es → n ≤ last_id n (take k es)
last_id-le n zero es a = omega arith
last_id-le n (suc k) [] a = omega arith
last_id-le n (suc k) (e ∷ es) (lt, a) = omega (arith, last_id-le e.id k es a)

-- The first events of an ascending list, and what is above the last of them.
pub take-matching :
    (topic : String) (n k : ℕ) (es : List Event)
    → OfTopic topic es
    → Ascending n es
    → take k es ++ matching topic (last_id n (take k es)) es ≡ es
unfolding matching
take-matching topic n zero es o a = matching_all topic n es o a
take-matching topic n (suc k) [] o a = refl
take-matching topic n (suc k) (e ∷ es) (oe, o) (lt, a) =
    let h = last_id-le e.id k es a in
    let dropped : matching topic (last_id e.id (take k es)) (e ∷ es)
        ≡ matching topic (last_id e.id (take k es)) es =
      ground (arith, h) in
    ap (λ (xs : List Event). e ∷ (take k es ++ xs)) dropped
    ∙ ap (λ (xs : List Event). e ∷ xs) (take-matching topic e.id k es o a)

-- Ids start above 0, so a list of which the last id is not above 0 is empty.
pub take-nil :
    (k : ℕ) (es : List Event)
    → Ascending 0 es
    → ltb 0 (last_id 0 (take k es)) ≡ false
    → take k es ≡ []
take-nil zero es a h = refl
take-nil (suc k) [] a h = refl
take-nil (suc k) (e ∷ es) (lt, a) h = absurd (ground (arith, h, lt, last_id-le e.id k es a))
