-- ===== src/Prelude/Parts.antt =====
-- Buffers that are written part by part (`extend_from_slice`), and where each part stands.
use Prim.Native.Nat.{ℕ, ◌+◌, ◌-◌}
use mathlib.Core.Path.{◌≡◌, refl, sym, ap, ◌∙◌}
use mathlib.Core.List.{List, [], ◌∷◌, ◌++◌, append_assoc}
use native.Mathlib.Omega.{arith}
use never_been_found.Prelude.Lists.{
  length, take, slice, length-append, slice-here, slice-skip, take-append,
}

module _ {ℓ} {A : Type ℓ} where
  unfoldable pub concat : List (List A) → List A
  concat [] = []
  concat (p ∷ ps) = p ++ concat ps

  abbrev pub total : List (List A) → ℕ
  total [] = 0
  total (p ∷ ps) = length p + total ps

  pub length-concat_total : (ps : List (List A)) → length (concat ps) ≡ total ps
  unfolding concat
  length-concat_total [] = refl
  length-concat_total (p ∷ ps) = omega (arith, length-append p (concat ps), length-concat_total ps)

  -- Each part stands behind those before it.
  pub slice-concat :
      (pre : List (List A)) (x : List A) (post : List (List A)) (o n : ℕ)
      → total pre ≡ o
      → length x ≡ n
      → slice o n (concat (pre ++ (x ∷ post))) ≡ x
  unfolding concat
  slice-concat [] x post o n ho hn =
      ap (λ k. slice k n (x ++ concat post)) (sym ho) ∙ slice-here n x (concat post) hn
  slice-concat (p ∷ pre) x post o n ho hn =
      slice-skip o n (length p) p (concat (pre ++ (x ∷ post))) refl (omega arith)
      ∙ slice-concat pre x post (o - length p) n (omega arith) hn

  concat-append : (ps qs : List (List A)) → concat (ps ++ qs) ≡ concat ps ++ concat qs
  unfolding concat
  concat-append [] qs = refl
  concat-append (p ∷ ps) qs =
      ap (◌++◌ p) (concat-append ps qs) ∙ sym (append_assoc p (concat ps) (concat qs))

  -- The parts up to one of them.
  pub take-concat :
      (pre post : List (List A)) (o : ℕ)
      → total pre ≡ o
      → take o (concat (pre ++ post)) ≡ concat pre
  take-concat pre post o h =
      ap (take o) (concat-append pre post)
      ∙ take-append o (concat pre) (concat post) (length-concat_total pre ∙ h)
