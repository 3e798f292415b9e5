-- ===== src/Base/Subsequence.antt =====
-- A list whose items stand in another one, in the same order.
use mathlib.Core.Path.{◌≡◌, subst}
use mathlib.Core.List.{List, [], ◌∷◌, ◌++◌}

pub data Subsequence {ℓ} {A : Type ℓ} : List A → List A → Type ℓ where
  done : Subsequence [] []
  skip : (y : A) {xs ys : List A} → Subsequence xs ys → Subsequence xs (y ∷ ys)
  keep : (x : A) {xs ys : List A} → Subsequence xs ys → Subsequence (x ∷ xs) (x ∷ ys)

module _ {ℓ} {A : Type ℓ} where
  pub same : (xs : List A) → Subsequence xs xs
  same [] = done
  same (x ∷ xs) = keep x (same xs)

  pub of_eq : {xs ys : List A} → xs ≡ ys → Subsequence xs ys
  of_eq {xs = xs} e = subst (Subsequence xs) e (same xs)

  pub none_of : (ys : List A) → Subsequence [] ys
  none_of [] = done
  none_of (y ∷ ys) = skip y (none_of ys)

  pub in_front :
      (zs : List A) {xs ys : List A} → Subsequence xs ys → Subsequence (zs ++ xs) (zs ++ ys)
  in_front [] s = s
  in_front (z ∷ zs) s = keep z (in_front zs s)

  pub joined :
      {xs ys us vs : List A}
      → Subsequence xs ys
      → Subsequence us vs
      → Subsequence (xs ++ us) (ys ++ vs)
  joined done t = t
  joined (skip y s) t = skip y (joined s t)
  joined (keep x s) t = keep x (joined s t)

  pub through :
      {ys zs : List A} → Subsequence ys zs → {xs : List A} → Subsequence xs ys → Subsequence xs zs
  through done s = s
  through (skip z t) s = skip z (through t s)
  through (keep z t) (skip y s) = skip z (through t s)
  through (keep z t) (keep x s) = keep z (through t s)
