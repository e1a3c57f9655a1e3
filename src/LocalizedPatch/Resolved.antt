-- ===== src/LocalizedPatch/Resolved.antt =====
-- src/aep/localized_patch.py: every edit of the loop over the operations is in place.
use agent_engineering_platfo.Prelude.{
  ℕ, suc, String, Bool, Option, List, [], ◌∷◌, length, All, Nat_eq,
}
use agent_engineering_platfo.Outcome.{
  Outcome, returned, ◌>>=◌, ensure_case, bind_case, Returns, Returns-returned,
}
use agent_engineering_platfo.Json.{Json, str, Fields, get}
use agent_engineering_platfo.LocalizedPatch.{PatchError, Operation, TrustedRegion, Edit}
use agent_engineering_platfo.LocalizedPatch.Operations.{
  Target, edit_for, resolve, resolve_all, is_rewrite,
}
use agent_engineering_platfo.LocalizedPatch.OperationFields.{bounds_of, content_of, get_or}
use agent_engineering_platfo.LocalizedPatch.InPlace.{IsInPlace, edit_for-IsInPlace}

module _ (sha256 : List ℕ → String) (printable : ℕ → Bool) (preimage : List ℕ)
    (region : Option TrustedRegion) (target : Target) where
  resolve-IsInPlace :
      (ordinal : ℕ) (seen : Bool) (raw : Fields)
      → Returns
          (λ step. IsInPlace (length preimage) (bounds_of region) step.0)
          (resolve sha256 printable preimage region target ordinal seen raw)
  unfolding resolve
  resolve-IsInPlace ordinal seen raw =
      bind_case Q _ _ (λ e _. tt)
        (λ operation _.
          ensure_case Q _ _ _ (λ _. tt)
            (λ _.
              ensure_case Q _ _ _ (λ _. tt)
                (λ _.
                  ensure_case Q _ _ _ (λ _. tt)
                    (λ _. ensure_case Q _ _ _ (λ _. tt) (λ _. with_content operation)))))
    where
      Q : Outcome PatchError (Edit × Bool) → Type 0
      Q = Returns (λ step. IsInPlace (length preimage) (bounds_of region) step.0)

      with_content :
          (operation : Operation)
          → Q (do
            content ← content_of (get_or (str "") "content" raw)
            edit ←
                edit_for sha256 preimage region ordinal
                  (get "regionId" raw)
                  target.authorized
                  seen
                  target.single
                  operation
                  raw
                  content
            returned (edit, is_rewrite operation))
      with_content operation =
          bind_case Q _ _ (λ e _. tt)
            (λ content _.
              bind_case Q _ _ (λ e _. tt)
                (λ edit made.
                  Returns-returned _ _ edit
                    (edit_for-IsInPlace sha256 preimage region ordinal (get "regionId" raw)
                      target.authorized seen target.single operation raw content)
                    made))

  pub resolve_all-IsInPlace :
      (ordinal : ℕ) (seen : Bool) (vs : List Json)
      → Returns
          (All (IsInPlace (length preimage) (bounds_of region)))
          (resolve_all sha256 printable preimage region target ordinal seen vs)
  unfolding resolve_all
  resolve_all-IsInPlace ordinal seen [] = tt
  resolve_all-IsInPlace ordinal seen (v ∷ vs) =
      bind_case Q _ _ (λ e _. tt)
        (λ raw _.
          bind_case Q _ _ (λ e _. tt)
            (λ step made.
              bind_case Q _ _ (λ e _. tt)
                (λ edits rest. (
                  Returns-returned _ _ step (resolve-IsInPlace ordinal seen raw) made,
                  Returns-returned _ _ edits (resolve_all-IsInPlace (suc ordinal) _ vs) rest,
                ))))
    where
      Q : Outcome PatchError (List Edit) → Type 0
      Q = Returns (All (IsInPlace (length preimage) (bounds_of region)))
