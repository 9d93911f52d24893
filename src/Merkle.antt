-- ===== src/Merkle.antt =====
-- The Merkle tree of backend/src/services/credential/merkle.service.ts: `build_tree`,
-- `generate_proof` and `verify_proof`. Poseidon (circomlibjs) is a parameter: a function of two
-- numbers. `none` is a thrown RangeError or TypeError. The hex conversions are left out.
pub mod Array
pub mod Laws
pub mod Binding
mod Examples
use zk_auth.Prelude.{
  ℕ, zero, suc, ◌+◌, ◌-◌, ◌*◌, ◌/◌, ◌%◌, Bool, true, false, Option, none, some, List, [], ◌∷◌,
  length, get_or, set, ltb, ◌==◌, if◌then◌else◌,
}

abbrev pub tree_depth : ℕ
tree_depth = 8

abbrev pub max_leaves : ℕ
max_leaves = 256

-- `new Array(n).fill(x)`
unfoldable pub fill : ℕ → ℕ → List ℕ
fill zero x = []
fill (suc n) x = x ∷ fill n x

-- `for (let k = 0; k < xs.length; k++) ys[i + k] = xs[k]`
unfoldable pub copy : List ℕ → ℕ → List ℕ → List ℕ
copy [] i ys = ys
copy (x ∷ xs) i ys = copy xs (suc i) (set ys i x)

-- The heap layout: the root at 1, the children of node i at 2 * i and 2 * i + 1, leaf i at 256 + i.
pub record MerkleTree : Type 0 where
  pub root : ℕ
  pub nodes : List ℕ
  pub leaves : List ℕ

pub record MerkleProof : Type 0 where
  pub path_elements : List ℕ
  pub path_indices : List ℕ
  pub leaf_hash : ℕ
  pub leaf_index : ℕ

-- The sibling of a node and whether the node is a right child: the body of `generateProof`'s loop.
abbrev pub routing_bit : ℕ → ℕ
routing_bit n = if n % 2 == 1 then 1 else 0

abbrev pub sibling : List ℕ → ℕ → ℕ
sibling nodes n = get_or nodes (if n % 2 == 1 then n - 1 else n + 1) 0

-- The loop of `generateProof`, from a node upwards, for a number of levels.
unfoldable pub elements_from : ℕ → List ℕ → ℕ → List ℕ
elements_from zero nodes n = []
elements_from (suc l) nodes n = sibling nodes n ∷ elements_from l nodes (n / 2)

unfoldable pub indices_from : ℕ → ℕ → List ℕ
indices_from zero n = []
indices_from (suc l) n = routing_bit n ∷ indices_from l (n / 2)

abbrev pub generate_proof : MerkleTree → ℕ → Option MerkleProof
generate_proof tree leaf_index =
    if ltb leaf_index max_leaves
    then some (record {
      path_elements = elements_from tree_depth tree.nodes (max_leaves + leaf_index);
      path_indices = indices_from tree_depth (max_leaves + leaf_index);
      leaf_hash = get_or tree.leaves leaf_index 0;
      leaf_index = leaf_index;
    })
    else none

abbrev pub rest : List ℕ → List ℕ
rest [] = []
rest (b ∷ bs) = bs

module _ (poseidon : ℕ → ℕ → ℕ) where
  abbrev pub zero_leaf : ℕ
  zero_leaf = poseidon 0 0

  -- The bottom-up loop `for (let i = n; i >= 1; i--)`.
  unfoldable pub build_internal : ℕ → List ℕ → List ℕ
  build_internal zero nodes = nodes
  build_internal (suc i) nodes =
      build_internal i
        (set nodes (suc i) (poseidon (get_or nodes (2 * suc i) 0) (get_or nodes (2 * suc i + 1) 0)))

  abbrev pub padded : List ℕ → List ℕ
  padded leaf_hashes = copy leaf_hashes 0 (fill max_leaves zero_leaf)

  abbrev pub nodes_of : List ℕ → List ℕ
  nodes_of leaves =
      build_internal (max_leaves - 1) (copy leaves max_leaves (fill (2 * max_leaves) 0))

  abbrev pub build_tree : List ℕ → Option MerkleTree
  build_tree leaf_hashes =
      if ltb max_leaves (length leaf_hashes)
      then none
      else some (record {
        root = get_or (nodes_of (padded leaf_hashes)) 1 0;
        nodes = nodes_of (padded leaf_hashes);
        leaves = padded leaf_hashes;
      })

  -- One step of `verifyProof`: the missing routing bit of a short path counts as 0.
  abbrev pub parent : List ℕ → ℕ → ℕ → ℕ
  parent [] e current = poseidon current e
  parent (b ∷ bs) e current = if b == 1 then poseidon e current else poseidon current e

  -- The loop of `verifyProof`, which reads both arrays from the front. Poseidon throws on the
  -- undefined element of a short path.
  pub climb : ℕ → List ℕ → List ℕ → ℕ → Option ℕ
  climb zero es bs current = some current
  climb (suc l) [] bs current = none
  climb (suc l) (e ∷ es) bs current = climb l es (rest bs) (parent bs e current)

  abbrev pub verify_proof : MerkleProof → ℕ → Option Bool
  verify_proof proof expected_root =
      elim (climb tree_depth proof.path_elements proof.path_indices proof.leaf_hash) [
        | none ↦ none
        | some current ↦ some (current == expected_root)
      ]
