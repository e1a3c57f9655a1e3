-- ===== src/LocalizedPatch/Preserved.antt =====
-- src/aep/localized_patch.py: the patch that `apply_localized_operations` returns.
use agent_engineering_platfo.Prelude.{
  ℕ, ◌+◌, ◌-◌, ◌≤◌, ◌≡◌, refl, String, Bool, false, not, ◌||◌, Option, none, some, List, [], ◌∷◌,
  map, arith, nat_eq, length, All, ◌⊎◌,
}
use agent_engineering_platfo.Outcome.{Outcome, returned, bind_case, Returns, Returns-returned}
use agent_engineering_platfo.Json.{Json, Fields}
use agent_engineering_platfo.Text.{codes, drop}
use agent_engineering_platfo.LocalizedPatch.{
  PatchError, Edit, TrustedRegion, AppliedOperation, LocalizedPatch,
}
use agent_engineering_platfo.LocalizedPatch.Regions.{Heading, Fence, region_bounds}
use agent_engineering_platfo.LocalizedPatch.Operations.{Target, resolve_all}
use agent_engineering_platfo.LocalizedPatch.OperationFields.{bounds_of}
use agent_engineering_platfo.LocalizedPatch.Apply.{
  splice, added, removed, patch_of, applied, trusted_region_of, check_order,
  apply_localized_operations,
}
use agent_engineering_platfo.LocalizedPatch.InPlace.{IsInPlace}
use agent_engineering_platfo.LocalizedPatch.Resolved.{resolve_all-IsInPlace}
use agent_engineering_platfo.LocalizedPatch.Ordered.{IsOrdered, check_order-IsOrdered}
use agent_engineering_platfo.LocalizedPatch.Restored.{put_back, put_back-splice, splice-size}

-- The sum of the lengths of spans.
abbrev pub spans_length : List (ℕ × ℕ) → ℕ
spans_length [] = 0
spans_length (span ∷ spans) = (span.1 - span.0) + spans_length spans

-- The sum of the lengths of texts.
abbrev pub texts_length : List (List ℕ) → ℕ
texts_length [] = 0
texts_length (t ∷ ts) = length t + texts_length ts

texts_length-added : (es : List Edit) → texts_length (map (λ e. e.replacement) es) ≡ added es
unfolding added
texts_length-added [] = refl
texts_length-added (e ∷ es) = omega (arith, texts_length-added es)

spans_length-removed :
    (size : ℕ) (region : ℕ × ℕ) (es : List Edit)
    → All (IsInPlace size region) es
    → spans_length (map (λ e. e.evidence.span) es) ≡ removed es
unfolding removed
spans_length-removed size region [] all = refl
spans_length-removed size region (e ∷ es) all =
    rw (all.0.recorded, spans_length-removed size region es all.1) refl

-- A rewrite, or an operation whose span lies in the region.
abbrev pub IsInRegion : ℕ × ℕ → AppliedOperation → Type 0
IsInRegion region o =
    (o.evidence.anchor ≡ none) ⊎ ((region.0 ≤ o.evidence.span.0) × (o.evidence.span.1 ≤ region.1))

module _ (strip : String → String) (words : List ℕ → List (List ℕ))
    (structure : List ℕ → List Heading × List Fence) (casefold : List ℕ → List ℕ)
    (sha256 : List ℕ → String) (printable : ℕ → Bool) (path preimage before revision : String)
    (operations : List Json) (region : Option Fields) (allow_rewrite target_exists : Bool) where
  abbrev run : Outcome PatchError LocalizedPatch
  run =
      apply_localized_operations strip words structure casefold sha256 printable path preimage
        before revision operations region allow_rewrite target_exists

  abbrev patch : List Edit → LocalizedPatch
  patch es =
      patch_of strip words structure casefold sha256 printable path revision before (codes preimage)
        es

  -- A statement about the patch, from one about edits that are in place and in order.
  returned_case :
      (P : LocalizedPatch → Type 0)
      → ((trusted : Option TrustedRegion) (es : List Edit)
          → trusted_region_of strip words structure (codes preimage) region operations
            ≡ returned trusted
          → All (IsInPlace (length (codes preimage)) (bounds_of trusted)) es
          → IsOrdered (length (codes preimage)) 0 es
          → P (patch es))
      → Returns P run
  unfolding apply_localized_operations
  returned_case P h =
      bind_case Q _ _ (λ e _. tt)
        (λ _ _.
          bind_case Q _ _ (λ e _. tt)
            (λ trusted found.
              bind_case Q _ _ (λ e _. tt)
                (λ es made.
                  bind_case Q _ _ (λ e _. tt)
                    (λ _ ordered.
                      bind_case Q _ _ (λ e _. tt) (λ _ _. finish trusted found es made ordered)))))
    where
      Q : Outcome PatchError LocalizedPatch → Type 0
      Q = Returns P

      target : Target
      target = record {
        path = path;
        repository_revision = revision;
        preimage_sha256 = before;
        authorized = allow_rewrite || not target_exists;
        single = nat_eq (length operations) 1;
      }

      finish :
          (trusted : Option TrustedRegion)
          → trusted_region_of strip words structure (codes preimage) region operations
            ≡ returned trusted
          → (es : List Edit)
          → resolve_all sha256 printable (codes preimage) trusted target 0 false operations
            ≡ returned es
          → check_order 0 0 es ≡ returned tt
          → P (patch es)
      finish trusted found es made ordered =
          let placed =
            Returns-returned _ _ es
              (resolve_all-IsInPlace sha256 printable (codes preimage) trusted target 0 false
                operations)
              made in
          h trusted es found placed (
            Returns-returned _ _ tt
              (check_order-IsOrdered (length (codes preimage)) (bounds_of trusted) 0 0 es placed
                (omega arith))
              ordered)

  trusted-bounds :
      (f : Fields) (span : ℕ × ℕ)
      → region ≡ some f
      → region_bounds strip words structure (codes preimage) f ≡ returned span
      → Returns
          (λ t. bounds_of t ≡ span)
          (trusted_region_of strip words structure (codes preimage) region operations)
  unfolding trusted_region_of
  trusted-bounds f span given found =
      rw given (bind_case (Returns (λ t. bounds_of t ≡ span)) _ _ (λ e _. tt) (λ span' found'. cc))

  applied-IsInRegion :
      (after : String) (bounds : ℕ × ℕ) (es : List Edit)
      → All (IsInPlace (length (codes preimage)) bounds) es
      → All (IsInRegion bounds) (
          map
            (applied strip words structure casefold sha256 printable path revision before after)
            es)
  applied-IsInRegion after bounds [] all = tt
  applied-IsInRegion after bounds (e ∷ es) all =
      (rw all.0.recorded all.0.authorized, applied-IsInRegion after bounds es all.1)

  -- A patch that is returned names the spans it changed: the texts of those spans, put back in the
  -- place of the replacements, make the preimage again.
  pub patch_restores :
      (p : LocalizedPatch)
      → run ≡ returned p
      → put_back (codes preimage) p.content 0 0 p.preservation.authorized_spans p.replacements
        ≡ codes preimage
  unfolding patch_of drop
  patch_restores p h =
      Returns-returned _ run p
        (returned_case
          (λ q.
            put_back (codes preimage) q.content 0 0 q.preservation.authorized_spans q.replacements
            ≡ codes preimage)
          (λ trusted es found placed ordered.
            put_back-splice (codes preimage) (bounds_of trusted) [] 0 0 es placed ordered refl))
        h

  -- The size of the content of a patch that is returned, with the sizes of the spans that it changed,
  -- is the size of the preimage with the ones of the replacements.
  pub patch_size :
      (p : LocalizedPatch)
      → run ≡ returned p
      → length p.content + spans_length p.preservation.authorized_spans
        ≡ length (codes preimage) + texts_length p.replacements
  unfolding patch_of
  patch_size p h =
      Returns-returned _ run p
        (returned_case
          (λ q.
            length q.content + spans_length q.preservation.authorized_spans
            ≡ length (codes preimage) + texts_length q.replacements)
          (λ trusted es found placed ordered. omega (
            arith,
            spans_length-removed (length (codes preimage)) (bounds_of trusted) es placed,
            texts_length-added es,
            splice-size (codes preimage) 0 es ordered,
          )))
        h

  -- Where a region is given that has bounds in the preimage, each operation of a patch that is returned
  -- is a rewrite or has a span inside these bounds.
  pub patch-IsInRegion :
      (f : Fields) (span : ℕ × ℕ) (p : LocalizedPatch)
      → region ≡ some f
      → region_bounds strip words structure (codes preimage) f ≡ returned span
      → run ≡ returned p
      → All (IsInRegion span) p.operations
  unfolding patch_of
  patch-IsInRegion f span p given found h =
      Returns-returned _ run p
        (returned_case (λ q. All (IsInRegion span) q.operations)
          (λ trusted es made placed ordered.
            let same_bounds =
              Returns-returned _ _ trusted (trusted-bounds f span given found) made in
            rw same_bounds at (
              applied-IsInRegion (sha256 (splice (codes preimage) 0 es)) (bounds_of trusted) es
                placed)))
        h
