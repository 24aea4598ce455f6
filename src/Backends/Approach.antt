-- ===== src/Backends/Approach.antt =====
-- Where an approach goes (backend_adapters.py, `go_to_point`): to the registry's position of the
-- confirmed candidate, or nowhere.
use mathlib.Core.List.{Memᴰ}
use mathlib.Core.Path.{subst}
use muto_rs_deployment_test.Prelude.{
  Bool, true, false, not, ◌&&◌, ◌||◌, Option, none, some, List, [], ◌∷◌, String, ◌==◌, ◌<>◌, eq_iff,
  Floats, nonempty, find_first, Bool-cases, ◌≡◌, refl, sym, ◌∙◌, inl, inr, arith, if◌then◌else◌,
}
use muto_rs_deployment_test.Result.{Result, ok, err, sequence-returns}
use muto_rs_deployment_test.Contracts.Board.{MissionBoard}
use muto_rs_deployment_test.Tools.Json.{Json, Coercions}
use muto_rs_deployment_test.Tools.Call.{ToolCall, ToolResult, tool_result}
use muto_rs_deployment_test.Backends.Authorities.{
  RegistryCandidate, RegistrySnapshot, Point, MotionAuthority, Adapter,
}
use muto_rs_deployment_test.Backends.Registry.{plain_result}
use muto_rs_deployment_test.Backends.Motion.{
  Positions, Resolution, is_approach, all_finite, any_apart, agree, coordinate, frame_of, placed,
  resolve_candidate, resolve, moved, prefixed, go_to_resolved, go_to_given, go_to_point,
}

find_first-member {ℓ} :
    {A : Type ℓ} (p : A → Bool) (xs : List A) (x : A)
    → find_first p xs ≡ some x
    → Memᴰ x xs × (p x ≡ true)
find_first-member p [] x h = cc
find_first-member p (y ∷ ys) x h = elim (Bool-cases (p y)) [
  | inl e ↦ let same : y ≡ x = ground (arith, rw e at h) in (Memᴰ.head (sym same), rw (sym same) e)
  | inr e ↦ let (m, t) = find_first-member p ys x (rw e at h) in (Memᴰ.tail m, t)
]

module _ {F : Type 0} ⦃fl : Floats F⦄ ⦃co : Coercions F⦄ ⦃po : Positions F⦄ where
  -- The position of the registry for the confirmed target, at the revision of the confirmation.
  pub record IsTarget (b : MissionBoard F) (s : RegistrySnapshot) (x y : F) : Type 0 where
    pub candidate : RegistryCandidate
    pub member : Memᴰ candidate s.candidates
    pub is_named : candidate.candidate_id ≡ b.confirmed_target_id
    pub checked : s.checked ≡ true
    pub of_snapshot : candidate.registry_revision ≡ s.revision
    pub confirmed : b.confirmed_registry_revision ≡ s.revision
    pub current : b.registry_revision ≡ s.revision
    pub in_map : frame_of candidate ≡ "map"
    pub x_is : coordinate "x" candidate ≡ some x
    pub y_is : coordinate "y" candidate ≡ some y
    pub finite : (fl.is_finite x ≡ true) × (fl.is_finite y ≡ true)

  agree-same :
      (point : Option (List (Json F))) (x y u v : F)
      → agree point x y ≡ ok (Resolution.position u v)
      → (x ≡ u) × (y ≡ v)
  agree-same none x y u v h = ground (arith, h)
  agree-same (some point) x y u v h =
      let (finite, _, compared) = sequence-returns (all_finite point) _ h in
      elim (Bool-cases finite) [
        | inr e ↦ absurd (ground (arith, rw e at compared))
        | inl e ↦
            let (apart, _, decided) =
              sequence-returns (any_apart point (x ∷ y ∷ [])) _ (rw e at compared) in
            ground (arith, decided)
      ]

  placed-same :
      (point : Option (List (Json F))) (ox oy : Option F) (u v : F)
      → placed point ox oy ≡ ok (Resolution.position u v)
      → (ox ≡ some u) × (oy ≡ some v) × ((fl.is_finite u ≡ true) × (fl.is_finite v ≡ true))
  placed-same point none oy u v h = cc
  placed-same point (some x) none u v h = cc
  placed-same point (some x) (some y) u v h = elim (Bool-cases (fl.is_finite x && fl.is_finite y)) [
    | inr e ↦ absurd (ground (arith, rw e at h))
    | inl e ↦
        let (x_is, y_is) = agree-same point x y u v (rw e at h) in ground (arith, e, x_is, y_is)
  ]

  resolve_candidate-facts :
      (point : Option (List (Json F))) (revision : String) (o : Option RegistryCandidate) (u v : F)
      → resolve_candidate point revision o ≡ ok (Resolution.position u v)
      → (candidate : RegistryCandidate) × (o ≡ some candidate)
        × (candidate.registry_revision ≡ revision)
        × (frame_of candidate ≡ "map")
        × (placed point (coordinate "x" candidate) (coordinate "y" candidate)
            ≡ ok (Resolution.position u v))
  unfolding resolve_candidate
  resolve_candidate-facts point revision none u v h = cc
  resolve_candidate-facts point revision (some candidate) u v h =
      elim (Bool-cases (candidate.registry_revision == revision)) [
        | inr e ↦ absurd (ground (arith, rw e at h))
        | inl e ↦ elim (Bool-cases (frame_of candidate == "map")) [
          | inr f ↦ absurd (ground (arith, rw (e, f) at h))
          | inl f ↦ (
            candidate,
            refl,
            (eq_iff candidate.registry_revision revision).0 e,
            (eq_iff (frame_of candidate) "map").0 f,
            rw (e, f) at h,
          )
        ]
      ]

  -- A guard that refuses has passed where a position is returned.
  passed :
      (test : Bool) (reason : String) {rest : Result (Resolution F)} {u v : F}
      → (if test then ok (Resolution.refused reason) else rest) ≡ ok (Resolution.position u v)
      → (test ≡ false) × (rest ≡ ok (Resolution.position u v))
  passed true reason h = cc
  passed false reason h = (refl, h)

  resolve-facts :
      (c : ToolCall F) (b : MissionBoard F) (s : RegistrySnapshot) (u v : F)
      → resolve c b s ≡ ok (Resolution.position u v)
      → ((c.candidate_id == b.confirmed_target_id) ≡ true)
        × (s.checked ≡ true)
        × ((b.confirmed_registry_revision == b.registry_revision) ≡ true)
        × ((b.confirmed_registry_revision == s.revision) ≡ true)
        × (resolve_candidate c.point s.revision
              (find_first (λ item. item.candidate_id == c.candidate_id) s.candidates)
            ≡ ok (Resolution.position u v))
  unfolding resolve
  resolve-facts c b s u v h =
      let (_, h1) = passed (not (nonempty b.confirmed_target_id)) "confirmed_target_required" h in
      let (named, h2) =
        passed (not (c.candidate_id == b.confirmed_target_id)) "confirmed_target_mismatch" h1 in
      let (available, h3) =
        passed
          (not s.checked
            || (not (nonempty s.revision) || not (nonempty b.confirmed_registry_revision)))
          "registry_snapshot_unavailable" h2 in
      let (current, h4) =
        passed
          (not (b.confirmed_registry_revision == b.registry_revision)
            || not (b.confirmed_registry_revision == s.revision))
          "registry_revision_mismatch" h3 in
      (
        ground (arith, named),
        ground (arith, available),
        ground (arith, current),
        ground (arith, current),
        h4,
      )

  resolve-IsTarget :
      (c : ToolCall F) (b : MissionBoard F) (s : RegistrySnapshot) (u v : F)
      → resolve c b s ≡ ok (Resolution.position u v)
      → IsTarget b s u v
  resolve-IsTarget c b s u v h =
      let (named, checked, current, confirmed, found) = resolve-facts c b s u v h in
      let (candidate, o_is, of_snapshot, in_map, position) =
        resolve_candidate-facts c.point s.revision
          (find_first (λ item. item.candidate_id == c.candidate_id) s.candidates) u v found in
      let (member, is_called) =
        find_first-member (λ item. item.candidate_id == c.candidate_id) s.candidates candidate
          o_is in
      let (x_is, y_is, finite) =
        placed-same c.point (coordinate "x" candidate) (coordinate "y" candidate) u v position in
      let confirmed_is = (eq_iff b.confirmed_registry_revision s.revision).0 confirmed in
      record {
        candidate = candidate;
        member = member;
        is_named =
            (eq_iff candidate.candidate_id c.candidate_id).0 is_called
            ∙ (eq_iff c.candidate_id b.confirmed_target_id).0 named;
        checked = checked;
        of_snapshot = of_snapshot;
        confirmed = confirmed_is;
        current =
            sym ((eq_iff b.confirmed_registry_revision b.registry_revision).0 current)
            ∙ confirmed_is;
        in_map = in_map;
        x_is = x_is;
        y_is = y_is;
        finite = finite;
      }

  tool_result-refused :
      (reason : String) (r : ToolResult F)
      → tool_result (plain_result false reason) ≡ ok r
      → r.success ≡ false
  unfolding tool_result
  tool_result-refused reason r h = ground arith

-- What a call of `go_to_point` under the approach does.
pub data Approaches {F W : Type 0} ⦃fl : Floats F⦄ ⦃co : Coercions F⦄ ⦃po : Positions F⦄
    (motion : MotionAuthority F W) (c : ToolCall F) (b : MissionBoard F) (a : Adapter W)
    (out : Result (ToolResult F) × Adapter W) : Type 0 where
  stays :
      out.1 ≡ a
      → ((r : ToolResult F) → out.0 ≡ ok r → r.success ≡ false)
      → Approaches motion c b a out
  goes :
      {x y : F}
      → IsTarget b a.snapshot x y
      → out
        ≡ moved
            (prefixed ("candidate_position_resolved:" <> c.candidate_id))
            a
            (motion.go_to_point (Point.resolved x y) "allow" b a.world)
      → Approaches motion c b a out

module _ {F W : Type 0} ⦃fl : Floats F⦄ ⦃co : Coercions F⦄ ⦃po : Positions F⦄
    (motion : MotionAuthority F W) where
  go_to_resolved-Approaches :
      (c : ToolCall F) (b : MissionBoard F) (a : Adapter W) (found : Result (Resolution F))
      → resolve c b a.snapshot ≡ found
      → Approaches motion c b a (go_to_resolved motion c b a found)
  go_to_resolved-Approaches c b a (err failure) e = Approaches.stays refl (λ r h. cc)
  go_to_resolved-Approaches c b a (ok (Resolution.refused reason)) e =
      Approaches.stays refl (λ r h. tool_result-refused reason r h)
  go_to_resolved-Approaches c b a (ok (Resolution.position x y)) e =
      Approaches.goes (resolve-IsTarget c b a.snapshot x y e) refl

  -- Under the approach, a call of `go_to_point` changes nothing and is no success, or it sends the
  -- motion authority to one point: the registry's position of the confirmed target, in the map frame,
  -- of the checked snapshot whose revision is that of the confirmation and of the board, whatever
  -- point the call names; and with projection allowed, whatever policy the call names.
  pub go_to_point-Approaches :
      (c : ToolCall F) (b : MissionBoard F) (a : Adapter W)
      → is_approach b.active_skill ≡ true
      → Approaches motion c b a (go_to_point motion c b a)
  unfolding go_to_point
  go_to_point-Approaches c b a h =
      subst
        (λ (t : Bool). Approaches motion c b a (
          if t
          then go_to_resolved motion c b a (resolve c b a.snapshot)
          else go_to_given motion c b a c.point))
        (sym h) (go_to_resolved-Approaches c b a (resolve c b a.snapshot) refl)
