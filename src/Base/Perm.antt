-- ===== src/Base/Perm.antt =====
-- Facts about the `std` algorithms that do not depend on the order of a list.
use mathlib.Core.List.{Perm, Permᴰ}
use mathlib.Core.Logic.{∥∥₁_elim}
use mathlib.Core.Path.{◌≡◌, refl, ◌∙◌}
use mathlib.Core.Bool.{Bool, true}
use mathlib.Core.List.{List, [], ◌∷◌}
use native.Mathlib.Omega.{arith}
use backend_for_browser_game.Base.Lists.{any_of, all_of, copy_if}

Bool_set : IsSet Bool
Bool_set = hlevel

module _ {ℓ} {A : Type ℓ} (p : A → Bool) where
  any_of-permᴰ : {xs ys : List A} → Permᴰ xs ys → any_of p xs ≡ any_of p ys
  any_of-permᴰ Permᴰ.nil = refl
  any_of-permᴰ (Permᴰ.cons e h) = cc (e, any_of-permᴰ h)
  any_of-permᴰ (Permᴰ.swap e f) = ground (arith, e, f)
  any_of-permᴰ (Permᴰ.trans h k) = any_of-permᴰ h ∙ any_of-permᴰ k

  pub any_of-perm : {xs ys : List A} → Perm xs ys → any_of p xs ≡ any_of p ys
  any_of-perm h = ∥∥₁_elim h (Bool_set _ _) any_of-permᴰ

  all_of-permᴰ : {xs ys : List A} → Permᴰ xs ys → all_of p xs ≡ all_of p ys
  all_of-permᴰ Permᴰ.nil = refl
  all_of-permᴰ (Permᴰ.cons e h) = cc (e, all_of-permᴰ h)
  all_of-permᴰ (Permᴰ.swap e f) = ground (arith, e, f)
  all_of-permᴰ (Permᴰ.trans h k) = all_of-permᴰ h ∙ all_of-permᴰ k

  pub all_of-perm : {xs ys : List A} → Perm xs ys → all_of p xs ≡ all_of p ys
  all_of-perm h = ∥∥₁_elim h (Bool_set _ _) all_of-permᴰ

module _ {ℓ} {A : Type ℓ} (p q : A → Bool) where
  pub any_of-copy_if : (xs : List A) → any_of p (copy_if q xs) ≡ true → any_of p xs ≡ true
  any_of-copy_if [] h = h
  any_of-copy_if (x ∷ xs) h = ground (arith, any_of-copy_if xs)

  pub all_of-copy_if : (xs : List A) → all_of p xs ≡ true → all_of p (copy_if q xs) ≡ true
  all_of-copy_if [] h = h
  all_of-copy_if (x ∷ xs) h = ground (arith, all_of-copy_if xs)
