-- ===== src/Layout/Best.antt =====
-- `compute` chooses a layout that fits its block, and no larger one would.
use Prim.Native.Nat.{min}
use native.Mathlib.Nat.{mul-le-mul_right, div-mul-le_self}
use bplus_tree.Base.{
  ℕ, zero, suc, ◌+◌, ◌-◌, ◌*◌, ◌/◌, ◌%◌, ◌^◌, ◌≤◌, ◌<◌, ◌≡◌, refl, ◌⊎◌, inl, inr, Bool, arith, leb,
  leb→le, leb→lt, ◌==◌, Bool-cases, ne→==, ==→eq, ==→ne, Ensures,
}
use bplus_tree.Layout.{
  Sizes, LeafLayout, BranchLayout, leaf_align, branch_align, after_sib, branch_hdr_size, leaf_end,
  leaf_search_cap, leaf_compute, branch_end, branch_search_cap, branch_compute,
}
use bplus_tree.Layout.Placed.{
  IsLeafPlaced, IsBranchPlaced, leaf_arrays-IsPlaced, branch_arrays-IsPlaced,
}
use bplus_tree.Layout.Room.{IsSizes, leaf_room, branch_room}

above-guess :
    (f : ℕ → ℕ) (bytes cap n : ℕ)
    → bytes < f (suc n)
    → ((k : ℕ) → cap < k → k ≤ n → bytes < f k)
    → (k : ℕ) → cap < k
    → k ≤ suc n
    → bytes < f k
above-guess f bytes cap n h below k a b = elim (Bool-cases (k == suc n)) [
  | inl e ↦ rw (==→eq k (suc n) e) h
  | inr e ↦ below k a (omega (arith, ==→ne k (suc n) e))
]

module _ (t : Sizes) (sizes : IsSizes t) where
  -- A leaf layout for a block of `bytes`: what it holds fits, and no larger capacity up to `guess`
  -- would.
  pub record IsBestLeaf (d : Bool) (bytes guess : ℕ) (l : LeafLayout) : Type 0 where
    pub block : l.bytes ≡ bytes
    pub small : l.cap ≤ guess
    pub placed : (l.cap ≡ 0) ⊎ IsLeafPlaced t d l
    pub fits : (l.cap ≡ 0) ⊎ (leaf_end t d l.cap ≤ bytes)
    pub largest : (k : ℕ) → l.cap < k → k ≤ guess → bytes < leaf_end t d k

  pub record IsBestBranch (bytes guess : ℕ) (l : BranchLayout) : Type 0 where
    pub block : l.bytes ≡ bytes
    pub small : l.cap ≤ guess
    pub placed : (l.cap ≡ 0) ⊎ IsBranchPlaced t l
    pub fits : (l.cap ≡ 0) ⊎ (branch_end t l.cap ≤ bytes)
    pub largest : (k : ℕ) → l.cap < k → k ≤ guess → bytes < branch_end t k

  leaf_search_cap-IsBestLeaf :
      (bytes : ℕ) (d : Bool) (n : ℕ)
      → n ≤ 65535
      → ((k : ℕ) → k ≤ n → leaf_room t k ≤ 2 ^ t.usize_bits)
      → IsBestLeaf d bytes n (leaf_search_cap t bytes d n)
  unfolding leaf_search_cap
  leaf_search_cap-IsBestLeaf bytes d zero h room = record {
    block = refl;
    small = omega arith;
    placed = inl refl;
    fits = inl refl;
    largest = λ k a b. absurd (omega arith);
  }
  leaf_search_cap-IsBestLeaf bytes d (suc n) h room =
      let same : suc n % 2 ^ 16 ≡ suc n = omega arith in
      let best = leaf_search_cap-IsBestLeaf bytes d n (omega arith) (λ k b. room k (omega arith)) in
      elim (Bool-cases (leb (leaf_end t d (suc n)) bytes)) [
        | inl e ↦
            rw (e, same)
              (record {
                block = refl;
                small = omega arith;
                placed = inr (
                    leaf_arrays-IsPlaced t sizes d (suc n) bytes (room (suc n) (omega arith))
                      (leb→le _ bytes e));
                fits = inr (leb→le _ bytes e);
                largest = λ k a b. absurd (omega arith);
              })
        | inr e ↦ rw e (record {
          block = best.block;
          small = omega (arith, best.small);
          placed = best.placed;
          fits = best.fits;
          largest = above-guess (leaf_end t d) bytes _ n (leb→lt _ bytes e) best.largest;
        })
      ]

  branch_search_cap-IsBestBranch :
      (bytes n : ℕ)
      → n ≤ 65535
      → ((k : ℕ) → k ≤ n → branch_room t k ≤ 2 ^ t.usize_bits)
      → IsBestBranch bytes n (branch_search_cap t bytes n)
  unfolding branch_search_cap
  branch_search_cap-IsBestBranch bytes zero h room = record {
    block = refl;
    small = omega arith;
    placed = inl refl;
    fits = inl refl;
    largest = λ k a b. absurd (omega arith);
  }
  branch_search_cap-IsBestBranch bytes (suc n) h room =
      let same : suc n % 2 ^ 16 ≡ suc n = omega arith in
      let best =
        branch_search_cap-IsBestBranch bytes n (omega arith) (λ k b. room k (omega arith)) in
      elim (Bool-cases (leb (branch_end t (suc n)) bytes)) [
        | inl e ↦
            rw (e, same)
              (record {
                block = refl;
                small = omega arith;
                placed = inr (
                    branch_arrays-IsPlaced t sizes (suc n) bytes (room (suc n) (omega arith))
                      (leb→le _ bytes e));
                fits = inr (leb→le _ bytes e);
                largest = λ k a b. absurd (omega arith);
              })
        | inr e ↦ rw e (record {
          block = best.block;
          small = omega (arith, best.small);
          placed = best.placed;
          fits = best.fits;
          largest = above-guess (branch_end t) bytes _ n (leb→lt _ bytes e) best.largest;
        })
      ]

  -- A capacity up to the first guess takes no more than the block.
  leaf_guess-room :
      (bytes start k : ℕ)
      → t.s_hdr + 2 * t.s_ptr + 6 * leaf_align t + bytes ≤ 2 ^ t.usize_bits
      → k ≤ min ((bytes - start) / (t.s_k + t.s_v)) 65535
      → leaf_room t k ≤ 2 ^ t.usize_bits
  leaf_guess-room bytes start k room b =
      let below : k ≤ (bytes - start) / (t.s_k + t.s_v) = omega arith in
      omega (
        arith,
        mul-le-mul_right (t.s_k + t.s_v) below,
        div-mul-le_self (bytes - start) (t.s_k + t.s_v),
      )

  branch_guess-room :
      (bytes start k : ℕ)
      → t.s_hdr + t.s_ptr + 6 * branch_align t + bytes ≤ 2 ^ t.usize_bits
      → k ≤ min ((bytes - start) / (t.s_k + t.s_ptr)) 65535
      → branch_room t k ≤ 2 ^ t.usize_bits
  branch_guess-room bytes start k room b =
      let below : k ≤ (bytes - start) / (t.s_k + t.s_ptr) = omega arith in
      omega (
        arith,
        mul-le-mul_right (t.s_k + t.s_ptr) below,
        div-mul-le_self (bytes - start) (t.s_k + t.s_ptr),
      )

  -- For alignments that are powers of two, keys and values that are not both of size 0, and a block for which the
  -- offsets fit `usize`: the leaf layout for the block exists. Its capacity is at most 65,535;
  -- unless it is 0, the arrays are aligned, lie behind the sibling pointers and inside the block, and
  -- do not overlap; and no larger capacity up to the first guess would fit.
  pub leaf_compute-IsBestLeaf :
      (bytes : ℕ) (d : Bool)
      → t.s_hdr + 2 * t.s_ptr + 6 * leaf_align t + bytes ≤ 2 ^ t.usize_bits
      → 1 ≤ t.s_k + t.s_v
      → Ensures (leaf_compute t bytes d) (λ l.
        (l.cap ≤ 65535)
        × IsBestLeaf d bytes (min ((bytes - after_sib t d) / (t.s_k + t.s_v)) 65535) l)
  unfolding leaf_compute
  leaf_compute-IsBestLeaf bytes d room h =
      let guess : ℕ = min ((bytes - after_sib t d) / (t.s_k + t.s_v)) 65535 in
      let low : guess ≤ 65535 = omega arith in
      let best =
        leaf_search_cap-IsBestLeaf bytes d guess low
          (λ k b. leaf_guess-room bytes (after_sib t d) k room b) in
      (
        leaf_search_cap t bytes d guess,
        rw (ne→== (t.s_k + t.s_v) 0 (omega arith)),
        (omega (arith, best.small), best),
      )

  -- For alignments that are powers of two, pointers of a size, and a block for which the offsets fit `usize`: the
  -- capacity of the branch layout for the block is at most 65,535; unless it is 0, the arrays are aligned, lie behind the header and inside the
  -- block, and do not overlap; and no larger capacity up to the first guess would fit.
  pub branch_compute-IsBestBranch :
      (bytes : ℕ)
      → t.s_hdr + t.s_ptr + 6 * branch_align t + bytes ≤ 2 ^ t.usize_bits
      → 1 ≤ t.s_ptr
      → ((branch_compute t bytes).cap ≤ 65535)
        × IsBestBranch bytes
            (min ((bytes - branch_hdr_size t) / (t.s_k + t.s_ptr)) 65535)
            (branch_compute t bytes)
  unfolding branch_compute
  branch_compute-IsBestBranch bytes room h =
      let guess : ℕ = min ((bytes - branch_hdr_size t) / (t.s_k + t.s_ptr)) 65535 in
      let low : guess ≤ 65535 = omega arith in
      let best =
        branch_search_cap-IsBestBranch bytes guess low
          (λ k b. branch_guess-room bytes (branch_hdr_size t) k room b) in
      rw (ne→== (t.s_k + t.s_ptr) 0 (omega arith)) (omega (arith, best.small), best)
