-- ===== src/Iterate/Pushed.antt =====
-- The loops of `collect_range_bounds` over the leaves and over the items of each.
use mathlib.Core.List.{append_assoc, append-nil}
use bplus_tree.Base.{
  ℕ, zero, suc, ◌<◌, ◌≡◌, refl, sym, ap, ◌∙◌, ◌⊎◌, inl, inr, true, false, some, List, [], ◌∷◌, ◌++◌,
  arith, ◌>>=◌, Bool-cases, ◌==◌, length, drop, flat_map,
}
use bplus_tree.Order.{Ord}
use bplus_tree.Node.{Leaf}
use bplus_tree.Siblings.{null}
use bplus_tree.Map.{BPlusTreeMap}
use bplus_tree.Walk.{leaf_at, tree_leaves}
use bplus_tree.Walk.Ends.{items_of}
use bplus_tree.Walk.Links.{head_ptr}
use bplus_tree.Iterate.{Bound, within_end}
use bplus_tree.Iterate.Ranged.{push_items, push_leaves}
use bplus_tree.Iterate.Forward.{Walks, take_within}

module _ {ℓ κ} {K : Type ℓ} {V : Type κ} ⦃o : Ord K⦄ where
  -- The items of a leaf are pushed, all of them, or up to the end bound.
  abbrev Pushed : Bound K → List (K × V) → List (K × V) → Type (ℓ ⊔ κ)
  Pushed end xs out =
      ((push_items end xs out ≡ (out ++ take_within (within_end end) xs, true))
        × ((ys : List (K × V))
            → take_within (within_end end) (xs ++ ys) ≡ take_within (within_end end) xs))
      ⊎ ((push_items end xs out ≡ (out ++ xs, false))
          × ((ys : List (K × V))
              → take_within (within_end end) (xs ++ ys) ≡ xs ++ take_within (within_end end) ys))

  push_items-Pushed : (end : Bound K) (xs out : List (K × V)) → Pushed end xs out
  unfolding push_items
  push_items-Pushed end [] out = inr (ap (λ zs. (zs, false)) (sym (append-nil out)), λ ys. refl)
  push_items-Pushed end (x ∷ xs) out = elim (Bool-cases (within_end end x.0)) [
    | inr beyond ↦ inl (
      rw (push_items, beyond) (ap (λ zs. (zs, true)) (sym (append-nil out))),
      λ ys. rw beyond refl,
    )
    | inl within ↦ elim (push_items-Pushed end xs (out ++ x ∷ [])) [
      | inl (run, stop) ↦ inl (
        rw (push_items, within, run)
            (ap (λ zs. (zs, true)) (append_assoc out (x ∷ []) (take_within (within_end end) xs))),
        λ ys. rw (within, stop ys) refl,
      )
      | inr (run, on) ↦ inr (
        rw (push_items, within, run) (ap (λ zs. (zs, false)) (append_assoc out (x ∷ []) xs)),
        λ ys. rw (within, on ys) refl,
      )
    ]
  ]

  module _ (fuel : ℕ) (m : BPlusTreeMap K V) (end : Bound K) (l : Leaf K V) (idx : ℕ)
      (out out' : List (K × V)) (there : leaf_at (tree_leaves m) l.addr ≡ some l)
      (real : (l.addr == null) ≡ false) where
    push_leaves-stop :
        push_items end (drop idx l.items) out ≡ (out', true)
        → push_leaves (suc fuel) m end l.addr idx out ≡ some out'
    unfolding push_leaves
    push_leaves-stop run = rw (push_leaves, real) (rw (there, ◌>>=◌) (rw run (rw run refl)))

    push_leaves-on :
        push_items end (drop idx l.items) out ≡ (out', false)
        → push_leaves (suc fuel) m end l.addr idx out
          ≡ push_leaves fuel m end (m.store.next l.addr) 0 out'
    unfolding push_leaves
    push_leaves-on run = rw (push_leaves, real) (rw (there, ◌>>=◌) (rw run (rw run refl)))

  push_leaves-null :
      (fuel : ℕ) (m : BPlusTreeMap K V) (end : Bound K) (p idx : ℕ) (out : List (K × V))
      → p ≡ null
      → push_leaves (suc fuel) m end p idx out ≡ some out
  unfolding push_leaves
  push_leaves-null fuel m end p idx out e = rw e refl

  push_leaves-rest :
      (fuel : ℕ) (m : BPlusTreeMap K V) (end : Bound K)
      → ((l : Leaf K V) (ls : List (Leaf K V)) (out : List (K × V))
          → Walks m (l ∷ ls)
          → suc (length ls) < suc fuel
          → push_leaves (suc fuel) m end l.addr 0 out
            ≡ some (out ++ take_within (within_end end) (items_of (l ∷ ls))))
      → (ls : List (Leaf K V)) (p : ℕ) (out : List (K × V)) → p ≡ head_ptr ls
      → Walks m ls
      → length ls < suc fuel
      → push_leaves (suc fuel) m end p 0 out
        ≡ some (out ++ take_within (within_end end) (items_of ls))
  unfolding flat_map
  push_leaves-rest fuel m end again [] p out e w b =
      push_leaves-null fuel m end p 0 out e ∙ ap some (sym (append-nil out))
  push_leaves-rest fuel m end again (l ∷ ls) p out e w b =
      ap (λ p. push_leaves (suc fuel) m end p 0 out) e ∙ again l ls out w (omega arith)

  -- The loop over the leaves ends with any fuel above their number.
  pub push_leaves-run :
      (fuel : ℕ) (m : BPlusTreeMap K V) (end : Bound K) (l : Leaf K V) (ls : List (Leaf K V))
      (idx : ℕ) (out : List (K × V))
      → Walks m (l ∷ ls)
      → suc (length ls) < fuel
      → push_leaves fuel m end l.addr idx out
        ≡ some (out ++ take_within (within_end end) (drop idx l.items ++ items_of ls))
  unfolding push_leaves flat_map
  push_leaves-run zero m end l ls idx out w b = absurd (omega arith)
  push_leaves-run (suc zero) m end l ls idx out w b = absurd (omega arith)
  push_leaves-run (suc (suc fuel)) m end l ls idx out w b =
      elim (push_items-Pushed end (drop idx l.items) out) [
        | inl (run, stop) ↦
            push_leaves-stop (suc fuel) m end l idx out _ w.0 w.1 run
            ∙ ap (λ zs. some (out ++ zs)) (sym (stop (items_of ls)))
        | inr (run, on) ↦
            push_leaves-on (suc fuel) m end l idx out _ w.0 w.1 run
            ∙ push_leaves-rest fuel m end
                (λ l' ls' out' w' b'. push_leaves-run (suc fuel) m end l' ls' 0 out' w' b') ls
                (m.store.next l.addr) (out ++ drop idx l.items) w.2 w.3 (omega arith)
            ∙ ap some
                (append_assoc out (drop idx l.items) (take_within (within_end end) (items_of ls)))
            ∙ ap (λ zs. some (out ++ zs)) (sym (on (items_of ls)))
      ]
