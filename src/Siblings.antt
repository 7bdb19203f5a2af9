-- ===== src/Siblings.antt =====
-- The sibling pointers of the leaves. A leaf is known by its address, 0 is the null pointer, and
-- the store holds the two pointer fields of each leaf block with what the allocator knows.
pub mod Unlink
pub mod Chain
pub mod Between
pub mod Splice
pub mod Release
pub mod Extends
use bplus_tree.Base.{ℕ, ◌+◌, Bool, true, false, ◌==◌, if◌then◌else◌}

pub record Siblings : Type 0 where
  pub next : ℕ → ℕ
  pub prev : ℕ → ℕ
  -- The block at the address is allocated.
  pub live : ℕ → Bool
  -- The address that the allocator returns next.
  pub fresh : ℕ
  -- A block was written or freed while it was not allocated.
  pub fault : Bool

abbrev pub null : ℕ
null = 0

abbrev pub update {ℓ} : {A : Type ℓ} → (ℕ → A) → ℕ → A → ℕ → A
update f p a q = if q == p then a else f q

-- `alloc_leaf_block`: a new block, its two pointers null.
unfoldable pub alloc_leaf_block : Siblings → ℕ × Siblings
alloc_leaf_block s = (
  s.fresh,
  record {
    next = update s.next s.fresh null;
    prev = update s.prev s.fresh null;
    live = update s.live s.fresh true;
    fresh = s.fresh + 1;
    fault = s.fault;
  },
)

-- The fault that an access to the block at `p` leaves.
abbrev pub touch : ℕ → Siblings → Bool
touch p s = if s.live p then s.fault else true

unfoldable pub set_next : ℕ → ℕ → Siblings → Siblings
set_next p q s = record s { next = update s.next p q; fault = touch p s }

unfoldable pub set_prev : ℕ → ℕ → Siblings → Siblings
set_prev p q s = record s { prev = update s.prev p q; fault = touch p s }

-- `leaf_insert_or_split`, "Link leaf siblings": `right` goes behind `leaf`.
unfoldable pub link_right : ℕ → ℕ → Siblings → Siblings
unfolding set_next set_prev
link_right leaf right s =
    let old_next = s.next leaf in
    let linked = set_next right old_next (set_prev right leaf (set_next leaf right s)) in
    if old_next == null then linked else set_prev old_next right linked

-- `free_leaf_node`: the leaf leaves the chain, and its block is freed.
unfoldable pub free_leaf_node : ℕ → Siblings → Siblings
unfolding set_next set_prev
free_leaf_node leaf s =
    let next = s.next leaf in
    let prev = s.prev leaf in
    let s1 = if prev == null then s else set_next prev next s in
    let s2 = if next == null then s1 else set_prev next prev s1 in
    let s3 = set_prev leaf null (set_next leaf null s2) in
    record s3 { live = update s3.live leaf false; fault = touch leaf s3 }

-- `make_leaf_root`
unfoldable pub make_leaf_root : ℕ → Siblings → Siblings
unfolding set_prev
make_leaf_root leaf s = set_prev leaf null s
