-- ===== src/Optimizer/Load/Flatten.antt =====
-- src/optimizer/optimizer.c: what `optimizer_flatten_from` leaves in the arrays.
use compute_ql.Shared.{
  subst, >>=-eq-some, ◌+◌, ◌≤◌, ◌≡◌, refl, ◌∙◌, List, [], ◌∷◌, ◌++◌, some, map, arith, length,
  length-append, length-set, if◌then◌else◌, leb, Bool-cases, inl, inr, Option-cases,
}
use mathlib.Core.List.{map-append, append_assoc}
use compute_ql.Plan.{Plan, PlanType, PlanFields, plan, absent, same_plan_type}
use compute_ql.Optimizer.{Relation}
use compute_ql.Optimizer.Assign.{zero_step}
use compute_ql.Optimizer.Load.{
  Flat, flatten_scan, note_step, optimizer_flatten_from, max_relations, is_plan_type,
}

-- The scans of a FROM tree, in the order of the text.
unfoldable pub scans : Plan → List Plan
scans absent = []
scans (plan t left right f) =
    let both : List Plan = scans left ++ scans right in
    if same_plan_type t PlanType.scan then plan t left right f ∷ [] else both

pub record IsFilled (s t : Flat) (p : Plan) : Type 0 where
  pub in_order :
      map (λ (r : Relation). r.scan) t.relations
      ≡ map (λ (r : Relation). r.scan) s.relations ++ scans p
  pub aligned : length s.steps ≡ length s.relations → length t.steps ≡ length t.relations
  pub bounded : length s.relations ≤ max_relations → length t.relations ≤ max_relations

scan-IsFilled :
    (node : Plan) (f : PlanFields) (s t : Flat)
    → length s.relations + 1 ≤ max_relations
    → scans node ≡ node ∷ []
    → flatten_scan node f s ≡ some t
    → IsFilled s t node
unfolding flatten_scan
scan-IsFilled node f s t room one e = elim (Option-cases f.table) [
  | inl n ↦ absurd (ground arith)
  | inr (table, h) ↦
      let new : Relation = record { scan = node; table = table; alias = f.alias } in
      let grown : Flat = record {
        relations = s.relations ++ (new ∷ []);
        steps = s.steps ++ (zero_step ∷ []);
      } in
      let same : grown ≡ t = ground (arith, h) in
      subst (λ t. IsFilled s t node) same
        (record {
          in_order = rw one (map-append _ s.relations (new ∷ []));
          aligned = λ a. omega (
            arith,
            a,
            length-append s.steps (zero_step ∷ []),
            length-append s.relations (new ∷ []),
          );
          bounded = λ b. omega (arith, length-append s.relations (new ∷ []));
        })
]

join-IsFilled :
    (t : PlanType) (f : PlanFields) (left right : Plan) (s a b : Flat)
    → IsFilled s a left
    → IsFilled a b right
    → scans (plan t left right f) ≡ scans left ++ scans right
    → IsFilled s (note_step f b) (plan t left right f)
unfolding note_step
join-IsFilled t f left right s a b x y e = record {
  in_order = rw e (
      y.in_order
      ∙ rw x.in_order
          (append_assoc (map (λ (r : Relation). r.scan) s.relations) (scans left) (scans right)));
  aligned = λ al. length-set b.steps _ _ ∙ y.aligned (x.aligned al);
  bounded = λ bd. y.bounded (x.bounded bd);
}

flatten-IsFilled : (p : Plan) (s t : Flat) → optimizer_flatten_from p s ≡ some t → IsFilled s t p
unfolding optimizer_flatten_from scans
flatten-IsFilled absent s t e = cc
flatten-IsFilled (plan u left right f) s t e =
    elim (Bool-cases (leb max_relations (length s.relations))) [
      | inl full ↦ absurd (ground arith)
      | inr room ↦ elim (Bool-cases (same_plan_type u PlanType.scan)) [
        | inl scan ↦
            scan-IsFilled (plan u left right f) f s t (ground arith) (rw scan)
              (rw (room, scan) at e)
        | inr no_scan ↦ elim (Bool-cases (same_plan_type u PlanType.join)) [
          | inr no_join ↦ absurd (ground arith)
          | inl join ↦ elim (Bool-cases (is_plan_type right PlanType.scan)) [
            | inr other ↦ absurd (ground arith)
            | inl right_scan ↦
                let (a, p, q) =
                  >>=-eq-some (optimizer_flatten_from left s) _
                    (rw (room, no_scan, join, right_scan) at e) in
                let (b, p', q') = >>=-eq-some (optimizer_flatten_from right a) _ q in
                let same : note_step f b ≡ t = ground (arith, q') in
                subst (λ t. IsFilled s t (plan u left right f)) same
                  (join-IsFilled u f left right s a b (flatten-IsFilled left s a p)
                    (flatten-IsFilled right a b p') (rw no_scan))
          ]
        ]
      ]
    ]

-- A FROM tree that is read fills the arrays with its scans in the order of the text, 32 at most, and
-- with one step for each of them.
pub flatten_from_lem :
    (p : Plan) (t : Flat)
    → optimizer_flatten_from p (record { relations = []; steps = [] }) ≡ some t
    → (map (λ (r : Relation). r.scan) t.relations ≡ scans p)
      × (length t.steps ≡ length t.relations)
      × (length t.relations ≤ 32)
flatten_from_lem p t e =
    let filled = flatten-IsFilled p (record { relations = []; steps = [] }) t e in
    (filled.in_order, filled.aligned refl, filled.bounded (omega arith))
