-- ===== src/Map/Sound.antt =====
-- A sound map: its nodes are valid, and the chain of its leaves is as they stand in the tree.
use mathlib.Core.List.{append-nil}
use mathlib.Core.Path.{subst}
use bplus_tree.Base.{
  ℕ, zero, ◌≤◌, ◌<◌, ◌≡◌, refl, sym, ap, Option, none, some, [], ◌++◌, arith, Ensures, Yields,
  Yields->>=, Yields-some, ok, to_option, le→ltb, flat_map,
}
use bplus_tree.Order.{Ord}
use bplus_tree.Node.{Caps, IsUsable, Node}
use bplus_tree.Node.Leaves.{addrs}
use bplus_tree.Node.Valid.{IsValid}
use bplus_tree.Siblings.{Siblings, alloc_leaf_block}
use bplus_tree.Siblings.Chain.{IsChain}
use bplus_tree.Siblings.Splice.{alloc_leaf_block-IsChain}
use bplus_tree.Siblings.Extends.{Extends, Extends-whole}
use bplus_tree.Insert.{InsertResult, no_split, split, insert_rec}
use bplus_tree.Insert.Chain.{parts, ExtendsNode, insert_rec-Extends}
use bplus_tree.Delete.{remove_rec}
use bplus_tree.Delete.Recursion.{remove_rec-Removed}
use bplus_tree.Delete.Chain.{remove_rec-Extends}
use bplus_tree.Map.{
  BPlusTreeMap, empty_store, with_caps, new, new_if, insert, insert_root, grow_root, remove,
}
use bplus_tree.Map.Valid.{contents, IsValidMap, IsValidRoot, root_min}
use bplus_tree.Map.Insertion.{IsInserted, insert-IsInserted}
use bplus_tree.Map.Removal.{IsRemoved, remove-IsRemoved, least-root_min}
use bplus_tree.Map.Creation.{new-IsNew}
use bplus_tree.Map.Linked.{root_addrs, Linked, shrink_root-Linked}

module _ {ℓ κ} {K : Type ℓ} {V : Type κ} ⦃o : Ord K⦄ where
  pub record IsSound (m : BPlusTreeMap K V) : Type 0 where
    pub usable : IsUsable m.caps
    pub valid : IsValidMap m
    -- The store links the leaves in the order of the tree, and no block but theirs is live.
    pub chain : Linked K V (m.root, m.store)

  module _ (key : K) (value : V) where
    grow_root-Linked :
        (h : ℕ) (r : InsertResult K V (Node K V h)) (s : Siblings)
        → IsChain s (parts (addrs K V h) r)
        → Linked K V (some (grow_root h r).0, s)
    unfolding grow_root addrs flat_map
    grow_root-Linked h (no_split n old) s chain = chain
    grow_root-Linked h (split l sep r old) s chain =
        subst (λ xs. IsChain s (addrs K V h l ++ xs)) (sym (append-nil (addrs K V h r))) chain

    insert_node-Linked :
        (c : Caps) (s : Siblings) (r : Option ((h : ℕ) × Node K V h)) (h : ℕ) (n : Node K V h)
        (s' : Siblings)
        → IsUsable c
        → insert_root (record { root = r; caps = c; store = s }) ≡ ((h, n), s')
        → IsValid V c h (root_min h) none none n
        → IsChain s' (addrs K V h n)
        → Yields
            (insert (record { root = r; caps = c; store = s }) key value)
            (λ p. Linked K V (p.0.root, p.0.store))
    unfolding insert
    insert_node-Linked c s r h n s' usable e v chain = rw e (
        Yields->>= (insert_rec c h n key value s') _ (ExtendsNode c usable key value s' h n) _
          (insert_rec-Extends c usable key value h (root_min h) none none n s' v tt tt)
          (λ r' run ext.
            grow_root-Linked h r'.0 r'.1
              (Extends-whole s' r'.1 (addrs K V h n) (parts (addrs K V h) r'.0) ext chain)))

    insert-Linked :
        (c : Caps) (s : Siblings) (r : Option ((h : ℕ) × Node K V h))
        → IsUsable c
        → IsValidRoot c r
        → IsChain s (root_addrs K V r)
        → Yields
            (insert (record { root = r; caps = c; store = s }) key value)
            (λ p. Linked K V (p.0.root, p.0.store))
    unfolding insert_root addrs alloc_leaf_block
    insert-Linked c s none usable v chain =
        let (leaf, s') = alloc_leaf_block s in
        insert_node-Linked c s none zero (record { addr = leaf; items = [] }) s' usable refl
          (omega arith, omega arith, tt, tt) (alloc_leaf_block-IsChain s chain)
    insert-Linked c s (some (h, n)) usable v chain =
        insert_node-Linked c s (some (h, n)) h n s usable refl v chain

    -- On a sound map `insert` returns a sound map with the new entry.
    pub insert-IsSound :
        (m : BPlusTreeMap K V)
        → IsSound m
        → Ensures (insert m key value) (λ p. IsSound p.0 × IsInserted key value m p.0 p.1)
    insert-IsSound m sound =
        let (p, run, done) = insert-IsInserted key value m sound.usable sound.valid in
        (
          p,
          run,
          (
            record {
              usable = rw done.caps sound.usable;
              valid = done.valid;
              chain =
                  Yields-some (insert m key value) (λ p. Linked K V (p.0.root, p.0.store))
                    (insert-Linked m.caps m.store m.root sound.usable sound.valid sound.chain) run;
            },
            done,
          ),
        )

  module _ (key : K) where
    remove-Linked :
        (c : Caps) (s : Siblings) (r : Option ((h : ℕ) × Node K V h))
        → IsUsable c
        → IsValidRoot c r
        → IsChain s (root_addrs K V r)
        → Yields
            (remove (record { root = r; caps = c; store = s }) key)
            (λ p. Linked K V (p.0.root, p.0.store))
    unfolding remove
    remove-Linked c s none usable v chain = chain
    remove-Linked c s (some (h, n)) usable v chain =
        let (r, run, done) =
          remove_rec-Removed c usable key h (root_min h) none none n s (least-root_min h) v tt tt in
        let ext =
          Yields-some (remove_rec c h n key s)
            (λ r. Extends s r.1 (addrs K V h n) (addrs K V h r.0.0))
            (remove_rec-Extends V c usable key h (root_min h) none none n s (least-root_min h) v tt
              tt)
            run in
        rw run (
          shrink_root-Linked K V c usable h r.0.0 r.0.1 r.1 done.0
            (Extends-whole s r.1 (addrs K V h n) (addrs K V h r.0.0) ext chain))

    -- On a sound map `remove` returns a sound map without the entry at the key.
    pub remove-IsSound :
        (m : BPlusTreeMap K V)
        → IsSound m
        → Ensures (remove m key) (λ p. IsSound p.0 × IsRemoved key m p.0 p.1)
    remove-IsSound m sound =
        let (p, run, done) = remove-IsRemoved key m sound.usable sound.valid in
        (
          p,
          run,
          (
            record {
              usable = rw done.caps sound.usable;
              valid = done.valid;
              chain =
                  Yields-some (remove m key) (λ p. Linked K V (p.0.root, p.0.store))
                    (remove-Linked m.caps m.store m.root sound.usable sound.valid sound.chain) run;
            },
            done,
          ),
        )

pub empty-IsChain : IsChain empty_store []
empty-IsChain = record {
  linked = tt;
  distinct = tt;
  live = λ b. refl;
  unused = λ b h. refl;
  real = refl;
  started = omega arith;
  clean = refl;
}

module _ {ℓ κ} (K : Type ℓ) (V : Type κ) ⦃o : Ord K⦄ where
  -- A map without a root, as `with_budgets` and `clear` leave it, is sound.
  pub with_caps-IsSound : (c : Caps) → IsUsable c → IsSound (with_caps {K = K} {V = V} c)
  unfolding with_caps
  with_caps-IsSound c usable = record { usable = usable; valid = tt; chain = empty-IsChain }

  new-Linked :
      (capacity : ℕ)
      → 4 ≤ capacity
      → Yields (to_option (new {K = K} {V = V} capacity)) (λ m. Linked K V (m.root, m.store))
  unfolding new new_if addrs alloc_leaf_block
  new-Linked capacity a =
      rw (le→ltb capacity 4 a) (alloc_leaf_block-IsChain empty_store empty-IsChain)

  -- For a capacity from 4 to 65,535 `new` returns a sound map without entries.
  pub new-IsSound :
      (capacity : ℕ)
      → 4 ≤ capacity
      → capacity < 65536
      → (m : BPlusTreeMap K V) × (new capacity ≡ ok m) × IsSound m × (contents m ≡ [])
  new-IsSound capacity a b =
      let (m, run, fresh) = new-IsNew K V capacity a b in
      (
        m,
        run,
        record {
          usable = fresh.usable;
          valid = fresh.valid;
          chain =
              Yields-some (to_option (new capacity)) (λ m. Linked K V (m.root, m.store))
                (new-Linked capacity a) (ap to_option run);
        },
        fresh.empty,
      )
