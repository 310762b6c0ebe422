-- ===== src/Program/Answers/Sublists.antt =====
-- Lists that lose elements.
use mathlib.Core.List.{Sublistᴰ}
use mathlib.Core.List.Sublistᴰ.{slnil, cons, cons-cons}
use wineing.Prelude.{refl, ap, ◌∙◌, ◌≡◌, ◌≤◌, arith, length, List, [], ◌∷◌, ◌++◌}

module _ {ℓ} {A : Type ℓ} where
  pub Sublist-snoc :
      (xs ys : List A) (b : A) → Sublistᴰ xs ys → Sublistᴰ (xs ++ b ∷ []) (ys ++ b ∷ [])
  Sublist-snoc [] [] b slnil = cons-cons refl slnil
  Sublist-snoc (x ∷ xs) [] b s = elim s [ ]
  Sublist-snoc xs (y ∷ ys) b (cons s) = cons (Sublist-snoc xs ys b s)
  Sublist-snoc (x ∷ xs) (y ∷ ys) b (cons-cons e s) = cons-cons e (Sublist-snoc xs ys b s)

  pub Sublist-drop :
      (xs : List A) (m : A) (zs ys : List A) → Sublistᴰ (xs ++ m ∷ zs) ys → Sublistᴰ (xs ++ zs) ys
  Sublist-drop [] m zs [] s = elim s [ ]
  Sublist-drop (x ∷ xs) m zs [] s = elim s [ ]
  Sublist-drop [] m zs (y ∷ ys) (cons s) = cons (Sublist-drop [] m zs ys s)
  Sublist-drop [] m zs (y ∷ ys) (cons-cons e s) = cons s
  Sublist-drop (x ∷ xs) m zs (y ∷ ys) (cons s) = cons (Sublist-drop (x ∷ xs) m zs ys s)
  Sublist-drop (x ∷ xs) m zs (y ∷ ys) (cons-cons e s) = cons-cons e (Sublist-drop xs m zs ys s)

  pub length-Sublist : {xs ys : List A} → Sublistᴰ xs ys → length xs ≤ length ys
  length-Sublist slnil = omega arith
  length-Sublist (cons s) = omega (arith, length-Sublist s)
  length-Sublist (cons-cons e s) = omega (arith, length-Sublist s)

  -- A list that lost nothing.
  pub Sublist-same : {xs ys : List A} → Sublistᴰ xs ys → length xs ≡ length ys → xs ≡ ys
  Sublist-same slnil h = refl
  Sublist-same (cons s) h = absurd (omega (arith, h, length-Sublist s))
  Sublist-same (cons-cons {a} {b} {l₁} {l₂} e s) h =
      ap (λ c. c ∷ l₁) e ∙ ap (λ l. b ∷ l) (Sublist-same s (omega (arith, h)))
