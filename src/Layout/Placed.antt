-- ===== src/Layout/Placed.antt =====
-- The arrays of a node lie inside its block, behind the header, and do not overlap.
use bplus_tree.Base.{ℕ, ◌+◌, ◌*◌, ◌^◌, ◌≤◌, ◌⊎◌, inl, inr, Bool, arith, leb, Bool-cases}
use bplus_tree.Layout.{
  Sizes, LeafLayout, BranchLayout, align_up, two_arrays, leaf_align, branch_align, after_sib,
  branch_hdr_size, leaf_arrays, leaf_end, branch_arrays, branch_end, branch_compute_for_cap,
}
use bplus_tree.Layout.Align.{IsAligned, align_up_ge, two_arrays-ordered}
use bplus_tree.Layout.Room.{
  IsSizes, leaf_room, branch_room, pointers, leaf_align-IsPower, branch_align-IsPower, after_sib_le,
  branch_hdr_size_lt,
}

-- Two arrays between `start` and `end`, at `x` and at `y`, that do not overlap.
pub record IsPlaced (start end a1 s1 n1 a2 s2 n2 x y : ℕ) : Type 0 where
  pub behind1 : start ≤ x
  pub behind2 : start ≤ y
  pub within1 : x + n1 * s1 ≤ end
  pub within2 : y + n2 * s2 ≤ end
  pub apart : (x + n1 * s1 ≤ y) ⊎ (y + n2 * s2 ≤ x)
  pub aligned1 : IsAligned x a1
  pub aligned2 : IsAligned y a2

module _ (t : Sizes) where
  -- The two arrays of a leaf layout with their alignment, and the sibling pointers before them.
  abbrev pub IsLeafPlaced : Bool → LeafLayout → Type 0
  IsLeafPlaced d l =
      IsPlaced (after_sib t d) l.bytes t.a_k t.s_k l.cap t.a_v t.s_v l.cap l.keys_off l.vals_off

  abbrev pub IsBranchPlaced : BranchLayout → Type 0
  IsBranchPlaced l =
      IsPlaced (branch_hdr_size t) l.bytes t.a_ptr t.s_ptr (l.cap + 1) t.a_k t.s_k l.cap
        l.children_off l.keys_off

  -- The sibling pointers lie between the header and the place where the arrays may start.
  abbrev pub IsHeaded : Bool → LeafLayout → Type 0
  IsHeaded d l = (t.s_hdr ≤ l.next_off) × (l.next_off + pointers t d ≤ after_sib t d)

module _ (t : Sizes) (sizes : IsSizes t) where
  pub leaf_arrays-IsPlaced :
      (d : Bool) (cap bytes : ℕ)
      → leaf_room t cap ≤ 2 ^ t.usize_bits
      → leaf_end t d cap ≤ bytes
      → IsPlaced
          (after_sib t d)
          bytes
          t.a_k
          t.s_k
          cap
          t.a_v
          t.s_v
          cap
          (leaf_arrays t d cap).0
          (leaf_arrays t d cap).1
  unfolding leaf_arrays leaf_end
  leaf_arrays-IsPlaced d cap bytes room h =
      let low = after_sib_le t sizes d (omega arith) in
      elim (Bool-cases (leb t.a_v t.a_k)) [
        | inl e ↦
            let p =
              two_arrays-ordered t.usize_bits (after_sib t d) t.a_k t.s_k cap t.a_v t.s_v cap
                sizes.key sizes.val (omega (arith, low)) in
            let up =
              align_up_ge t.usize_bits
                (two_arrays t.usize_bits (after_sib t d) t.a_k t.s_k cap t.a_v t.s_v cap).2
                (leaf_align t) (leaf_align-IsPower t sizes) (omega (arith, low, p.5)) in
            let h' : align_up t.usize_bits
                  (two_arrays t.usize_bits (after_sib t d) t.a_k t.s_k cap t.a_v t.s_v cap).2
                  (leaf_align t)
                ≤ bytes =
              rw e at h in
            rw e (record {
              behind1 = p.0;
              behind2 = omega (arith, p.0, p.1);
              within1 = omega (arith, p.1, p.2);
              within2 = omega (arith, p.2);
              apart = inl p.1;
              aligned1 = p.3;
              aligned2 = p.4;
            })
        | inr e ↦
            let p =
              two_arrays-ordered t.usize_bits (after_sib t d) t.a_v t.s_v cap t.a_k t.s_k cap
                sizes.val sizes.key (omega (arith, low)) in
            let up =
              align_up_ge t.usize_bits
                (two_arrays t.usize_bits (after_sib t d) t.a_v t.s_v cap t.a_k t.s_k cap).2
                (leaf_align t) (leaf_align-IsPower t sizes) (omega (arith, low, p.5)) in
            let h' : align_up t.usize_bits
                  (two_arrays t.usize_bits (after_sib t d) t.a_v t.s_v cap t.a_k t.s_k cap).2
                  (leaf_align t)
                ≤ bytes =
              rw e at h in
            rw e (record {
              behind1 = omega (arith, p.0, p.1);
              behind2 = p.0;
              within1 = omega (arith, p.2);
              within2 = omega (arith, p.1, p.2);
              apart = inr p.1;
              aligned1 = p.4;
              aligned2 = p.3;
            })
      ]

  pub branch_arrays-IsPlaced :
      (cap bytes : ℕ)
      → branch_room t cap ≤ 2 ^ t.usize_bits
      → branch_end t cap ≤ bytes
      → IsPlaced
          (branch_hdr_size t)
          bytes
          t.a_ptr
          t.s_ptr
          (cap + 1)
          t.a_k
          t.s_k
          cap
          (branch_arrays t cap).0
          (branch_arrays t cap).1
  unfolding branch_arrays branch_end
  branch_arrays-IsPlaced cap bytes room h =
      let low = branch_hdr_size_lt t sizes (omega arith) in
      elim (Bool-cases (leb t.a_k t.a_ptr)) [
        | inl e ↦
            let p =
              two_arrays-ordered t.usize_bits (branch_hdr_size t) t.a_ptr t.s_ptr (cap + 1) t.a_k
                t.s_k cap sizes.ptr sizes.key (omega (arith, low)) in
            let up =
              align_up_ge t.usize_bits
                (two_arrays t.usize_bits (branch_hdr_size t) t.a_ptr t.s_ptr (cap + 1) t.a_k t.s_k
                  cap).2
                (branch_align t) (branch_align-IsPower t sizes) (omega (arith, low, p.5)) in
            let h' : align_up t.usize_bits
                  (two_arrays t.usize_bits (branch_hdr_size t) t.a_ptr t.s_ptr (cap + 1) t.a_k t.s_k
                    cap).2
                  (branch_align t)
                ≤ bytes =
              rw e at h in
            rw e (record {
              behind1 = p.0;
              behind2 = omega (arith, p.0, p.1);
              within1 = omega (arith, p.1, p.2);
              within2 = omega (arith, p.2);
              apart = inl p.1;
              aligned1 = p.3;
              aligned2 = p.4;
            })
        | inr e ↦
            let p =
              two_arrays-ordered t.usize_bits (branch_hdr_size t) t.a_k t.s_k cap t.a_ptr t.s_ptr
                (cap + 1) sizes.key sizes.ptr (omega (arith, low)) in
            let up =
              align_up_ge t.usize_bits
                (two_arrays t.usize_bits (branch_hdr_size t) t.a_k t.s_k cap t.a_ptr t.s_ptr
                  (cap + 1)).2
                (branch_align t) (branch_align-IsPower t sizes) (omega (arith, low, p.5)) in
            let h' : align_up t.usize_bits
                  (two_arrays t.usize_bits (branch_hdr_size t) t.a_k t.s_k cap t.a_ptr t.s_ptr
                    (cap + 1)).2
                  (branch_align t)
                ≤ bytes =
              rw e at h in
            rw e (record {
              behind1 = omega (arith, p.0, p.1);
              behind2 = p.0;
              within1 = omega (arith, p.2);
              within2 = omega (arith, p.1, p.2);
              apart = inr p.1;
              aligned1 = p.4;
              aligned2 = p.3;
            })
      ]

  -- For alignments that are powers of two, and a capacity for which the offsets fit `usize`: in the branch layout
  -- for the capacity the arrays of children and keys are aligned, lie behind the header and inside the
  -- block, and do not overlap.
  pub branch_compute_for_cap-IsPlaced :
      (cap : ℕ)
      → branch_room t cap ≤ 2 ^ t.usize_bits
      → IsBranchPlaced t (branch_compute_for_cap t cap)
  unfolding branch_compute_for_cap
  branch_compute_for_cap-IsPlaced cap room =
      branch_arrays-IsPlaced cap (branch_end t cap) room (omega arith)
