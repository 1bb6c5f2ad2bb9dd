-- ===== src/Base/Places.antt =====
-- Parts of two lists that change places.
use mathlib.Core.Path.{◌≡◌, sym, subst}
use mathlib.Core.List.{List, [], ◌∷◌, ◌++◌, append_assoc, Perm, perm_append_comm}
use mathlib.Core.List.Perm

module _ {A : Type 0} where
  pub swap_front : (xs ys zs : List A) → Perm (xs ++ (ys ++ zs)) (ys ++ (xs ++ zs))
  swap_front xs ys zs =
      subst (λ us. Perm us (ys ++ (xs ++ zs))) (append_assoc xs ys zs)
        (subst (λ us. Perm ((xs ++ ys) ++ zs) us) (append_assoc ys xs zs)
          (Perm.append_right zs (perm_append_comm xs ys)))

  -- A change of two lists, with a third behind.
  pub widen :
      (ps ls ps' ls' rs : List A)
      → Perm (ps ++ ls) (ps' ++ ls')
      → Perm (ps ++ (ls ++ rs)) (ps' ++ (ls' ++ rs))
  widen ps ls ps' ls' rs same =
      subst (λ us. Perm us (ps' ++ (ls' ++ rs))) (append_assoc ps ls rs)
        (subst (λ us. Perm ((ps ++ ls) ++ rs) us) (append_assoc ps' ls' rs)
          (Perm.append_right rs same))

  -- A change of two lists, with a third between.
  pub beside :
      (ps ls rs ps' rs' : List A)
      → Perm (ps ++ rs) (ps' ++ rs')
      → Perm (ps ++ (ls ++ rs)) (ps' ++ (ls ++ rs'))
  beside ps ls rs ps' rs' same =
      Perm.trans (swap_front ps ls rs)
        (Perm.trans (Perm.append_left ls same) (swap_front ls ps' rs'))

  -- The first of one list becomes the last of the other.
  pub first_to_last : (a : A) (ps ls : List A) → Perm ((a ∷ ps) ++ ls) (ps ++ (ls ++ a ∷ []))
  first_to_last a ps ls =
      subst (λ us. Perm (a ∷ (ps ++ ls)) us) (append_assoc ps ls (a ∷ []))
        (perm_append_comm (a ∷ []) (ps ++ ls))

  -- One in the middle of one list becomes the last of the other.
  pub middle_to_last :
      (a : A) (ps ls rs : List A) → Perm (ps ++ (ls ++ a ∷ rs)) ((ps ++ a ∷ []) ++ (ls ++ rs))
  middle_to_last a ps ls rs =
      subst (λ us. Perm (ps ++ (ls ++ a ∷ rs)) us) (sym (append_assoc ps (a ∷ []) (ls ++ rs)))
        (Perm.append_left ps (swap_front ls (a ∷ []) rs))

  pub same_Perm : {xs ys : List A} → xs ≡ ys → Perm xs ys
  same_Perm {xs} e = subst (λ us. Perm xs us) e (Perm.refl xs)
