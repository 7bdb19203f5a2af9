-- ===== src/Error.antt =====
-- lib.rs, `BPlusTreeError`.
use Prim.Native.String.{String}
use bplus_tree.Base.{Bool, true, false}

pub data BPlusTreeError : Type 0 where
  invalid_capacity : String → BPlusTreeError
  key_not_found : BPlusTreeError
  data_integrity_error : String → BPlusTreeError
  arena_error : String → BPlusTreeError
  node_error : String → BPlusTreeError
  corrupted_tree : String → BPlusTreeError
  invalid_state : String → BPlusTreeError
  allocation_error : String → BPlusTreeError

-- `PartialEq`: the messages do not count.
unfoldable pub error_eq : BPlusTreeError → BPlusTreeError → Bool
error_eq (invalid_capacity _) (invalid_capacity _) = true
error_eq key_not_found key_not_found = true
error_eq (data_integrity_error _) (data_integrity_error _) = true
error_eq (arena_error _) (arena_error _) = true
error_eq (node_error _) (node_error _) = true
error_eq (corrupted_tree _) (corrupted_tree _) = true
error_eq (invalid_state _) (invalid_state _) = true
error_eq (allocation_error _) (allocation_error _) = true
error_eq _ _ = false
