-- ===== src/Map/Creation.antt =====
-- `new` and `with_budgets`: an empty map.
use Prim.Native.Nat.{min}
use bplus_tree.Base.{
  ℕ, ◌+◌, ◌-◌, ◌*◌, ◌/◌, ◌^◌, ◌⊎◌, true, Ensures, zero, some, ◌≤◌, ◌<◌, ◌≡◌, refl, [], arith, ok,
  le→ltb,
}
use bplus_tree.Order.{Ord}
use bplus_tree.Node.{IsUsable, entries}
use bplus_tree.Siblings.{alloc_leaf_block}
use bplus_tree.Layout.{
  Sizes, leaf_align, branch_align, after_sib, leaf_end, branch_hdr_size, branch_end, branch_compute,
}
use bplus_tree.Layout.Room.{IsSizes}
use bplus_tree.Layout.Best.{leaf_compute-IsBestLeaf, branch_compute-IsBestBranch}
use bplus_tree.Map.{with_caps, with_budgets, BPlusTreeMap, empty_store, new, new_if, cap_u16}
use bplus_tree.Map.Valid.{IsValidMap, contents}

pub cap_u16-small : (n : ℕ) → n < 65536 → cap_u16 n ≡ n
unfolding cap_u16
cap_u16-small n h = omega arith

module _ {ℓ κ} (K : Type ℓ) (V : Type κ) ⦃o : Ord K⦄ (capacity : ℕ) where
  -- A map that is empty and valid, whose nodes take `capacity` keys.
  pub record IsNew (m : BPlusTreeMap K V) : Type (ℓ ⊔ κ) where
    pub valid : IsValidMap m
    pub empty : contents m ≡ []
    pub leaf_cap : m.caps.leaf_cap ≡ capacity
    pub branch_cap : m.caps.branch_cap ≡ capacity
    pub usable : IsUsable m.caps

  -- For a capacity from 4 to 65,535 `new` returns an empty, valid map of that capacity.
  pub new-IsNew :
      4 ≤ capacity → capacity < 65536 → (m : BPlusTreeMap K V) × (new capacity ≡ ok m) × IsNew m
  unfolding new new_if entries alloc_leaf_block
  new-IsNew a b =
      let leaf = alloc_leaf_block empty_store in
      let same = cap_u16-small capacity b in
      (
        record {
          root = some (zero, record { addr = leaf.0; items = [] });
          caps = record { leaf_cap = cap_u16 capacity; branch_cap = cap_u16 capacity };
          store = leaf.1;
        },
        rw (le→ltb capacity 4 a),
        record {
          valid = (omega arith, omega arith, tt, tt);
          empty = refl;
          leaf_cap = same;
          branch_cap = same;
          usable = record { leaf = omega (arith, same); branch = omega (arith, same) };
        },
      )

-- A capacity for a block of `bytes`: it is 0 or its layout, which ends at `end`, fits the block, and
-- the layout of no larger capacity up to `guess` does.
pub record IsBestCap (end : ℕ → ℕ) (bytes guess cap : ℕ) : Type 0 where
  pub narrow : cap ≤ 65535
  pub small : cap ≤ guess
  pub fits : (cap ≡ 0) ⊎ (end cap ≤ bytes)
  pub largest : (k : ℕ) → cap < k → k ≤ guess → bytes < end k

module _ {ℓ κ} (K : Type ℓ) (V : Type κ) where
  -- For alignments that are powers of two, pointers of a size, keys and values that are not both of size 0, and two
  -- budgets for which the offsets fit `usize`: `with_budgets` returns a map without entries. Each of
  -- its two capacities is at most 65,535, is 0 or has a layout that fits its budget, and is the
  -- largest, up to the first guess, whose layout does.
  pub with_budgets_lem :
      (t : Sizes)
      → IsSizes t
      → 1 ≤ t.s_ptr
      → 1 ≤ t.s_k + t.s_v
      → (leaf_bytes branch_bytes : ℕ)
      → t.s_hdr + 2 * t.s_ptr + 6 * leaf_align t + leaf_bytes ≤ 2 ^ t.usize_bits
      → t.s_hdr + t.s_ptr + 6 * branch_align t + branch_bytes ≤ 2 ^ t.usize_bits
      → Ensures (with_budgets {K = K} {V = V} t leaf_bytes branch_bytes) (λ m.
        (contents m ≡ [])
        × IsBestCap
            (leaf_end t true)
            leaf_bytes
            (min ((leaf_bytes - after_sib t true) / (t.s_k + t.s_v)) 65535)
            m.caps.leaf_cap
        × IsBestCap
            (branch_end t)
            branch_bytes
            (min ((branch_bytes - branch_hdr_size t) / (t.s_k + t.s_ptr)) 65535)
            m.caps.branch_cap)
  unfolding with_budgets with_caps
  with_budgets_lem t sizes ptr pair leaf_bytes branch_bytes room room' =
      let (leaf, run, (narrow, best)) = leaf_compute-IsBestLeaf t sizes leaf_bytes true room pair in
      let (narrow', best') = branch_compute-IsBestBranch t sizes branch_bytes room' ptr in
      (
        with_caps
            (record { leaf_cap = leaf.cap; branch_cap = (branch_compute t branch_bytes).cap }),
        rw run,
        (
          refl,
          record { narrow = narrow; small = best.small; fits = best.fits; largest = best.largest },
          record {
            narrow = narrow';
            small = best'.small;
            fits = best'.fits;
            largest = best'.largest;
          },
        ),
      )
