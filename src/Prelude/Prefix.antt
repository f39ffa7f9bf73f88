-- ===== src/Prelude/Prefix.antt =====
-- What one task takes of what another has sent: a prefix, in order.
use mathlib.Core.Path.{◌≡◌, refl, sym, ap, ◌∙◌}
use mathlib.Core.List.{List, [], ◌∷◌, ◌++◌, append-nil, append_assoc, Sublist, sublist-append_left}
use rrev.Prelude.Lists.{push_all}

-- The first list is a prefix of the second.
abbrev pub Prefix : {A : Type 0} → List A → List A → Type 0
Prefix {A} xs ys = (rest : List A) × (ys ≡ xs ++ rest)

-- What each item gives, in order.
abbrev pub flat : {A B : Type 0} → (A → List B) → List A → List B
flat f [] = []
flat f (x ∷ xs) = f x ++ flat f xs

-- The same of a list with the newest item first.
abbrev pub said : {A B : Type 0} → (A → List B) → List A → List B
said f [] = []
said f (x ∷ xs) = said f xs ++ f x

module _ {A : Type 0} where
  pub Prefix-trans : (xs ys zs : List A) → Prefix xs ys → Prefix ys zs → Prefix xs zs
  Prefix-trans xs ys zs (p, e) (q, f) = (p ++ q, f ∙ ap (λ l. l ++ q) e ∙ append_assoc xs p q)

module _ {A B : Type 0} (f : A → List B) where
  flat-append : (xs ys : List A) → flat f (xs ++ ys) ≡ flat f xs ++ flat f ys
  flat-append [] ys = refl
  flat-append (x ∷ xs) ys =
      ap (λ l. f x ++ l) (flat-append xs ys) ∙ sym (append_assoc (f x) (flat f xs) (flat f ys))

  pub flat-Prefix : (xs ys : List A) → Prefix xs ys → Prefix (flat f xs) (flat f ys)
  flat-Prefix xs ys (p, e) = (flat f p, ap (flat f) e ∙ flat-append xs p)

  pub said-push_all : (xs h : List A) → said f (push_all xs h) ≡ said f h ++ flat f xs
  said-push_all [] h = sym (append-nil (said f h))
  said-push_all (x ∷ xs) h = said-push_all xs (x ∷ h) ∙ append_assoc (said f h) (f x) (flat f xs)

module _ {A B C : Type 0} (f : A → List B) (g : B → List C) where
  pub flat-flat : (xs : List A) → flat g (flat f xs) ≡ flat (λ x. flat g (f x)) xs
  flat-flat [] = refl
  flat-flat (x ∷ xs) = flat-append g (f x) (flat f xs) ∙ ap (λ l. flat g (f x) ++ l) (flat-flat xs)

pub Prefix-sublist : {A : Type 0} {xs ys : List A} → Prefix xs ys → Sublist xs ys
Prefix-sublist {xs = xs} (rest, e) = rw e (sublist-append_left xs rest)
