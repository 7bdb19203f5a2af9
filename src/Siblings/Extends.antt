-- ===== src/Siblings/Extends.antt =====
-- A step that changes a part of the chain, whatever stands around it.
use mathlib.Core.List.{append_assoc, append-nil}
use bplus_tree.Base.{ℕ, ◌≡◌, sym, List, [], ◌++◌}
use mathlib.Core.Path.{subst}
use bplus_tree.Siblings.{Siblings}
use bplus_tree.Siblings.Chain.{IsChain}

abbrev pub Extends : Siblings → Siblings → List ℕ → List ℕ → Type 0
Extends s t old new =
    (xs ys : List ℕ) → IsChain s (xs ++ (old ++ ys)) → IsChain t (xs ++ (new ++ ys))

pub Extends-same : (s : Siblings) (old new : List ℕ) → old ≡ new → Extends s s old new
Extends-same s old new e xs ys h = subst (λ zs. IsChain s (xs ++ (zs ++ ys))) e h

pub Extends-trans :
    (s t u : Siblings) (old mid new : List ℕ)
    → Extends s t old mid
    → Extends t u mid new
    → Extends s u old new
Extends-trans s t u old mid new f g xs ys h = g xs ys (f xs ys h)

regroup :
    (xs front old back ys : List ℕ)
    → xs ++ ((front ++ old ++ back) ++ ys) ≡ (xs ++ front) ++ (old ++ (back ++ ys))
regroup xs front old back ys = simp append_assoc

pub Extends-within :
    (s t : Siblings) (front old new back : List ℕ)
    → Extends s t old new
    → Extends s t (front ++ old ++ back) (front ++ new ++ back)
Extends-within s t front old new back f xs ys h =
    subst (IsChain t) (sym (regroup xs front new back ys))
      (f (xs ++ front) (back ++ ys) (subst (IsChain s) (regroup xs front old back ys) h))

pub Extends-whole :
    (s t : Siblings) (old new : List ℕ) → Extends s t old new → IsChain s old → IsChain t new
Extends-whole s t old new f h =
    subst (IsChain t) (append-nil new) (f [] [] (subst (IsChain s) (sym (append-nil old)) h))
