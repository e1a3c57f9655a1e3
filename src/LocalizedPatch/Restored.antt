-- ===== src/LocalizedPatch/Restored.antt =====
-- src/aep/localized_patch.py: what `apply_localized_operations` keeps of the preimage.
use agent_engineering_platfo.Prelude.{
  ℕ, ◌+◌, ◌-◌, ◌≤◌, ◌≡◌, refl, sym, ap, List, [], ◌∷◌, ◌++◌, map, arith, length, length-append, All,
}
use agent_engineering_platfo.Text.{take, drop, slice}
use agent_engineering_platfo.Text.Slices.{
  length-take, length-drop, take-append_drop, drop-drop, drop-append, take-append,
}
use agent_engineering_platfo.LocalizedPatch.{Edit}
use agent_engineering_platfo.LocalizedPatch.Apply.{splice, added, removed}
use agent_engineering_platfo.LocalizedPatch.InPlace.{IsInPlace}
use agent_engineering_platfo.LocalizedPatch.Ordered.{IsOrdered}

-- The postimage with the spans of the preimage put back in the place of the replacements. The cursors
-- are the places in the postimage and in the preimage.
unfoldable pub put_back : List ℕ → List ℕ → ℕ → ℕ → List (ℕ × ℕ) → List (List ℕ) → List ℕ
put_back preimage postimage out cursor (span ∷ spans) (r ∷ rs) =
    slice out (out + (span.0 - cursor)) postimage
    ++ (slice span.0 span.1 preimage
        ++ put_back preimage postimage (out + (span.0 - cursor) + length r) span.1 spans rs)
put_back preimage postimage out cursor _ _ = drop out postimage

append_assoc {ℓ} : {A : Type ℓ} (x y z : List A) → (x ++ y) ++ z ≡ x ++ (y ++ z)
append_assoc [] y z = refl
append_assoc (a ∷ x) y z = ap (a ∷◌) (append_assoc x y z)

slice-append_drop : (a b : ℕ) (t : List ℕ) → a ≤ b → slice a b t ++ drop b t ≡ drop a t
slice-append_drop a b t h =
    let next : a + (b - a) ≡ b = omega arith in
    let parts : take (b - a) (drop a t) ++ drop (a + (b - a)) t ≡ drop a t =
      rw (← drop-drop a (b - a) t) (take-append_drop (b - a) (drop a t)) in
    rw next at parts

length-slice : (a b : ℕ) (t : List ℕ) → a ≤ b → b ≤ length t → length (slice a b t) ≡ b - a
length-slice a b t h g = length-take (b - a) (drop a t) (omega (arith, length-drop a t))

add_sub : (a d : ℕ) → a + d - a ≡ d
add_sub a d = omega arith

-- The part of a text behind a prefix.
slice_behind :
    (prefix kept rest : List ℕ) (out d : ℕ)
    → length prefix ≡ out
    → length kept ≡ d
    → slice out (out + d) (prefix ++ (kept ++ rest)) ≡ kept
slice_behind prefix kept rest out d e f =
    rw (add_sub out d, drop-append out prefix (kept ++ rest) e) (take-append d kept rest f)

regroup : (a b c d : List ℕ) → (a ++ (b ++ c)) ++ d ≡ a ++ (b ++ (c ++ d))
regroup a b c d = rw (append_assoc a (b ++ c) d, append_assoc b c d) refl

prefix_length :
    (a b c : List ℕ) (n d : ℕ)
    → length a ≡ n
    → length b ≡ d
    → length (a ++ (b ++ c)) ≡ n + d + length c
prefix_length a b c n d e f = omega (arith, length-append a (b ++ c), length-append b c)

module _ (preimage : List ℕ) where
  ordered_end :
      (cursor : ℕ) (es : List Edit)
      → IsOrdered (length preimage) cursor es
      → cursor ≤ length preimage
  ordered_end cursor [] o = o
  ordered_end cursor (e ∷ es) o = omega (arith, o.0, o.1.0, ordered_end e.stop es o.1.1)

  put_back-nil :
      (prefix : List ℕ) (out cursor : ℕ)
      → length prefix ≡ out
      → put_back preimage (prefix ++ splice preimage cursor []) out cursor [] []
        ≡ drop cursor preimage
  unfolding put_back splice
  put_back-nil prefix out cursor e = drop-append out prefix (drop cursor preimage) e

  splice_step :
      (prefix : List ℕ) (cursor : ℕ) (e : Edit) (es : List Edit)
      → prefix ++ splice preimage cursor (e ∷ es)
        ≡ (prefix ++ (slice cursor e.start preimage ++ e.replacement)) ++ splice preimage e.stop es
  unfolding splice
  splice_step prefix cursor e es =
      sym (regroup prefix (slice cursor e.start preimage) e.replacement (splice preimage e.stop es))

  -- One span, where what follows it is put back.
  put_back-next :
      (prefix kept r rest post : List ℕ) (out cursor start stop : ℕ) (span : ℕ × ℕ)
      (spans : List (ℕ × ℕ)) (rs : List (List ℕ))
      → post ≡ (prefix ++ (kept ++ r)) ++ rest
      → span ≡ (start, stop)
      → length prefix ≡ out
      → kept ≡ slice cursor start preimage
      → cursor ≤ start
      → start ≤ stop
      → stop ≤ length preimage
      → put_back preimage post (out + (start - cursor) + length r) stop spans rs
        ≡ drop stop preimage
      → put_back preimage post out cursor (span ∷ spans) (r ∷ rs) ≡ drop cursor preimage
  unfolding put_back
  put_back-next prefix kept r rest post out cursor start stop span spans rs whole recorded eq cut h
        g b behind =
      let size : length kept ≡ start - cursor =
        rw cut (length-slice cursor start preimage h (omega arith)) in
      let first : slice out (out + (start - cursor)) post ≡ kept =
        rw (whole, regroup prefix kept r rest)
          (slice_behind prefix kept (r ++ rest) out (start - cursor) eq size) in
      rw (recorded, behind, first, slice-append_drop start stop preimage g, cut)
        (slice-append_drop cursor start preimage h)

  pub put_back-splice :
      (region : ℕ × ℕ) (prefix : List ℕ) (out cursor : ℕ) (es : List Edit)
      → All (IsInPlace (length preimage) region) es
      → IsOrdered (length preimage) cursor es
      → length prefix ≡ out
      → put_back preimage
          (prefix ++ splice preimage cursor es)
          out
          cursor
          (map (λ e. e.evidence.span) es)
          (map (λ e. e.replacement) es)
        ≡ drop cursor preimage
  put_back-splice region prefix out cursor [] all o e = put_back-nil prefix out cursor e
  put_back-splice region prefix out cursor (e ∷ es) all o eq =
      put_back-next prefix (slice cursor e.start preimage) e.replacement (splice preimage e.stop es)
        _ out cursor e.start e.stop e.evidence.span _ _ (splice_step prefix cursor e es)
        all.0.recorded eq refl o.0 o.1.0 all.0.in_text
        (rw (splice_step prefix cursor e es) (
          put_back-splice region (prefix ++ (slice cursor e.start preimage ++ e.replacement))
            (out + (e.start - cursor) + length e.replacement) e.stop es all.1 o.1.1
            (prefix_length prefix (slice cursor e.start preimage) e.replacement out
              (e.start - cursor) eq
              (length-slice cursor e.start preimage o.0 (omega (arith, o.1.0, all.0.in_text))))))

  pub splice-size :
      (cursor : ℕ) (es : List Edit)
      → IsOrdered (length preimage) cursor es
      → cursor + length (splice preimage cursor es) + removed es ≡ length preimage + added es
  unfolding splice added removed
  splice-size cursor [] o = omega (arith, length-drop cursor preimage)
  splice-size cursor (e ∷ es) o =
      let size =
        length-slice cursor e.start preimage o.0
          (omega (arith, o.1.0, ordered_end e.stop es o.1.1)) in
      omega (
        arith,
        size,
        o.0,
        o.1.0,
        splice-size e.stop es o.1.1,
        length-append (slice cursor e.start preimage) (e.replacement ++ splice preimage e.stop es),
        length-append e.replacement (splice preimage e.stop es),
      )
