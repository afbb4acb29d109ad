-- ===== src/Examples/Toy.antt =====
-- Concrete primitives with the documented behaviour that `Suite` and `Asym` ask for. They hide
-- nothing: they show that the two interfaces can be met.
use never_been_found.Prelude.{
  ℕ, suc, ◌+◌, ◌*◌, ◌≡◌, refl, sym, ap, ◌∙◌, Option, none, some, [], ◌∷◌, ◌++◌, length,
  length-append, length-take, length-replicate, get_or, take, drop, replicate, take-append,
  drop-append, drop_zero, Bytes, bytes_eq, bytes_eq_refl, ◌==◌, ==_refl, if◌then◌else◌, arith,
}
use native.Mathlib.Nat.{mul_assoc, mul-one, one-mul}
use never_been_found.Suite.{Suite}
use never_been_found.Asym.{Asym}

-- The first `n` bytes, with zeros behind.
abbrev pub fill : ℕ → Bytes → Bytes
fill n m = take n (m ++ replicate n 0)

pub length-fill : (n : ℕ) (m : Bytes) → length (fill n m) ≡ n
length-fill n m = omega (
  arith,
  length-take n (m ++ replicate n 0),
  length-append m (replicate n 0),
  length-replicate {A = ℕ} n 0,
)

-- The key is the tag.
abbrev pub toy_decrypt : Bytes → Bytes → Bytes → Bytes → Option Bytes
toy_decrypt k n a ct = if bytes_eq (take 16 ct) (fill 16 k) then some (drop 16 ct) else none

pub toy_opens : (k n a m : Bytes) → toy_decrypt k n a (fill 16 k ++ m) ≡ some m
toy_opens k n a m = rw (
  take-append 16 (fill 16 k) m (length-fill 16 k),
  bytes_eq_refl (fill 16 k),
  drop-append 16 16 (fill 16 k) m (length-fill 16 k) (omega arith),
  drop_zero m,
)

abbrev pub suite : Suite
suite = record {
  encrypt = λ k n a m. fill 16 k ++ m;
  decrypt = toy_decrypt;
  sha256 = fill 32;
  sha512 = fill 64;
  hkdf = λ s i f n. fill n (i ++ s);
  decrypt-encrypt = toy_opens;
  length-encrypt = λ k n a m. omega (arith, length-append (fill 16 k) m, length-fill 16 k);
  length-sha256 = length-fill 32;
  length-sha512 = length-fill 64;
  length-hkdf = λ s i f n h. length-fill n (i ++ s);
}

abbrev pub word : ℕ → ℕ → Bytes
word n k = k ∷ replicate n 0

pub length-word : (n k : ℕ) → length (word n k) ≡ suc n
length-word n k = omega (arith, length-replicate {A = ℕ} n 0)

abbrev both : Option (Bytes × Bytes) → Bytes × Bytes
both none = ([], [])
both (some p) = p

pub toy_finds :
    (pk : ℕ) (s : ℕ) (ct ss : Bytes)
    → ◌≡◌ {A = Option (Bytes × Bytes)} (some (word 1087 s, (pk + s) ∷ [])) (some (ct, ss))
    → ◌≡◌ {A = Option Bytes} (some ((pk + get_or ct 0 0) ∷ [])) (some ss)
toy_finds pk s ct ss e =
    ap (λ o. some ((pk + get_or (both o).0 0 0) ∷ [])) (sym e) ∙ ap (λ o. some (both o).1) e

pub toy_size :
    (pk : ℕ) (s : ℕ) (ct ss : Bytes)
    → ◌≡◌ {A = Option (Bytes × Bytes)} (some (word 1087 s, (pk + s) ∷ [])) (some (ct, ss))
    → length ct ≡ 1088
toy_size pk s ct ss e = ap (λ o. length (both o).0) (sym e) ∙ length-word 1087 s

abbrev pub asym : Asym
asym = record {
  Scalar = ℕ;
  DecapsKey = ℕ;
  SigningKey = ℕ;
  Rng = ℕ;
  one = 1;
  mul = λ a b. a * b;
  reduce = λ bs. get_or bs 0 0;
  to_bytes = word 31;
  from_hash = λ bs. get_or bs 0 0;
  point_mul = λ p a. word 31 (get_or p 0 0 * a);
  mul_base = word 31;
  random_scalar = λ r. (r, suc r);
  fill_bytes = λ n r. (replicate n r, suc r);
  generate = λ r. ((r, r ∷ []), suc r);
  encapsulate = λ pk r. (some (word 1087 r, (get_or pk 0 0 + r) ∷ []), suc r);
  decapsulate = λ sk ct. some ((sk + get_or ct 0 0) ∷ []);
  generate_signing = λ r. (r, suc r);
  verifying_key = word 31;
  sign = λ k m. word 63 k;
  verify = λ vk m s. get_or vk 0 0 == get_or s 0 0;
  mul_one = mul-one;
  one_mul = one-mul;
  mul_assoc = mul_assoc;
  reduce-to_bytes = λ a. refl;
  length-to_bytes = length-word 31;
  length-point_mul = λ p a. length-word 31 (get_or p 0 0 * a);
  decapsulate-encapsulate = λ r s {ct} {ss} e. toy_finds r s ct ss e;
  length-ciphertext = λ pk s {ct} {ss} e. toy_size (get_or pk 0 0) s ct ss e;
  verify-sign = λ k m. ==_refl k;
  length-verifying_key = length-word 31;
  length-sign = λ k m. length-word 63 k;
}
