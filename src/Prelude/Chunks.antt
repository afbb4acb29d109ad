-- ===== src/Prelude/Chunks.antt =====
-- A list cut into chunks of one size, the last one shorter, and put together again.
use Prim.Native.Nat.{ℕ, zero, suc, ◌+◌, ◌-◌, ◌*◌, ◌≤◌, min}
use native.Mathlib.Nat.{suc-mul}
use mathlib.Core.Path.{◌≡◌, sym, ap, ◌∙◌}
use mathlib.Core.Logic.{inl, inr}
use mathlib.Core.List.{List, [], ◌∷◌, ◌++◌}
use native.Mathlib.Omega.{arith}
use never_been_found.Prelude.Tests.{le_total}
use never_been_found.Prelude.Lists.{
  length, take, drop, slice, length-drop, take_all, drop_all, take-append-drop,
}

next_start : (chunk i : ℕ) → (i + 1) * chunk ≡ i * chunk + chunk
next_start chunk i = ap (λ j. j * chunk) {x = i + 1} {y = suc i} (omega arith) ∙ suc-mul i chunk

module _ {ℓ} {A : Type ℓ} where
  pub drop-drop : (a c : ℕ) (xs : List A) → drop c (drop a xs) ≡ drop (a + c) xs
  unfolding drop
  drop-drop zero c xs = ap (λ k. drop k xs) (omega arith)
  drop-drop (suc a) c [] = drop_all c [] (omega arith) ∙ sym (drop_all (suc a + c) [] (omega arith))
  drop-drop (suc a) c (x ∷ xs) =
      let e : suc a + c ≡ suc (a + c) = omega arith in rw e (drop-drop a c xs)

  module _ (chunk : ℕ) where
    -- `&xs[a..b]` with `a = i * chunk` and `b = ((i + 1) * chunk).min(len)`
    abbrev pub chunk_at : List A → ℕ → List A
    chunk_at xs i =
        let a = i * chunk in let b = min ((i + 1) * chunk) (length xs) in slice a (b - a) xs

    chunk_at-take : (xs : List A) (i : ℕ) → chunk_at xs i ≡ take chunk (drop (i * chunk) xs)
    unfolding slice
    chunk_at-take xs i = elim (le_total ((i + 1) * chunk) (length xs)) [
      | inl h ↦
          ap (λ n. take n (drop (i * chunk) xs)) {y = chunk} (omega (arith, next_start chunk i))
      | inr h ↦
          take_all _ (drop (i * chunk) xs) (omega (arith, length-drop (i * chunk) xs))
          ∙ sym (
              take_all chunk (drop (i * chunk) xs)
                (omega (arith, length-drop (i * chunk) xs, next_start chunk i)))
    ]

    -- The chunks `k`, …, `k + m - 1`, one after the other.
    unfoldable pub chunks_from : List A → ℕ → ℕ → List A
    chunks_from xs k zero = []
    chunks_from xs k (suc m) = chunk_at xs k ++ chunks_from xs (suc k) m

    pub chunks_from-drop :
        (xs : List A) (k m : ℕ)
        → length xs ≤ (k + m) * chunk
        → chunks_from xs k m ≡ drop (k * chunk) xs
    unfolding chunks_from
    chunks_from-drop xs k zero h =
        sym (drop_all _ xs (omega (arith, ap (λ j. j * chunk) {x = k + 0} {y = k} (omega arith))))
    chunks_from-drop xs k (suc m) h =
        let over : (k + suc m) * chunk ≡ (suc k + m) * chunk = ap (λ j. j * chunk) (omega arith) in
        let start : suc k * chunk ≡ k * chunk + chunk =
          ap (λ j. j * chunk) {x = suc k} {y = k + 1} (omega arith) ∙ next_start chunk k in
        rw (chunk_at-take xs k, chunks_from-drop xs (suc k) m (omega (arith, over)))
          (rw (start, ← drop-drop (k * chunk) chunk xs) (take-append-drop chunk _))
