-- ===== src/Merkle/Array.antt =====
-- The loops that fill the arrays of backend/src/services/credential/merkle.service.ts.
use zk_auth.Prelude.{
  ℕ, zero, suc, ◌+◌, ◌*◌, ◌≤◌, ◌<◌, ◌≡◌, refl, ◌∙◌, ap, ◌⊎◌, inl, inr, arith, List, [], ◌∷◌, length,
  get_or, set, length-set, get_or-set_self, get_or-set_ne,
}
use zk_auth.Merkle.{fill, copy, build_internal}

pub length-fill : (n x : ℕ) → length (fill n x) ≡ n
unfolding fill
length-fill zero x = refl
length-fill (suc n) x = omega (arith, length-fill n x)

pub get_or-fill : (n x i d : ℕ) → i < n → get_or (fill n x) i d ≡ x
unfolding fill
get_or-fill zero x i d h = absurd (omega arith)
get_or-fill (suc n) x zero d h = refl
get_or-fill (suc n) x (suc i) d h = get_or-fill n x i d (omega arith)

pub length-copy : (xs : List ℕ) (i : ℕ) (ys : List ℕ) → length (copy xs i ys) ≡ length ys
unfolding copy
length-copy [] i ys = refl
length-copy (x ∷ xs) i ys = length-copy xs (suc i) (set ys i x) ∙ length-set ys i x

-- What is below the first index, or past the last one, stays.
pub get_or-copy_out :
    (xs : List ℕ) (i : ℕ) (ys : List ℕ) (j d : ℕ)
    → (j < i) ⊎ (i + length xs ≤ j)
    → get_or (copy xs i ys) j d ≡ get_or ys j d
unfolding copy
get_or-copy_out [] i ys j d h = refl
get_or-copy_out (x ∷ xs) i ys j d h =
    get_or-copy_out xs (suc i) (set ys i x) j d (ground arith)
    ∙ get_or-set_ne ys i j x d (ground arith)

pub get_or-copy :
    (xs : List ℕ) (i : ℕ) (ys : List ℕ) (k d : ℕ)
    → k < length xs
    → i + length xs ≤ length ys
    → get_or (copy xs i ys) (i + k) d ≡ get_or xs k d
unfolding copy
get_or-copy [] i ys k d h le = absurd (omega arith)
get_or-copy (x ∷ xs) i ys zero d h le =
    get_or-copy_out xs (suc i) (set ys i x) (i + 0) d (inl (omega arith))
    ∙ ap (λ (j : ℕ). get_or (set ys i x) j d) (omega arith)
    ∙ get_or-set_self ys i x d (omega arith)
get_or-copy (x ∷ xs) i ys (suc k) d h le =
    ap (λ (j : ℕ). get_or (copy xs (suc i) (set ys i x)) j d) (omega arith)
    ∙ get_or-copy xs (suc i) (set ys i x) k d (omega arith) (omega (arith, length-set ys i x))

le-split : (j n : ℕ) → j ≤ suc n → (j ≤ n) ⊎ (j ≡ suc n)
le-split j n h = ground arith

module _ (poseidon : ℕ → ℕ → ℕ) where
  pub length-build :
      (n : ℕ) (nodes : List ℕ) → length (build_internal poseidon n nodes) ≡ length nodes
  unfolding build_internal
  length-build zero nodes = refl
  length-build (suc n) nodes = length-build n _ ∙ length-set nodes (suc n) _

  pub get_or-build_above :
      (n : ℕ) (nodes : List ℕ) (j : ℕ)
      → n < j
      → get_or (build_internal poseidon n nodes) j 0 ≡ get_or nodes j 0
  unfolding build_internal
  get_or-build_above zero nodes j h = refl
  get_or-build_above (suc n) nodes j h =
      get_or-build_above n _ j (omega arith)
      ∙ get_or-set_ne nodes (suc n) j _ 0 (λ e. absurd (omega arith))

  pair_hash : List ℕ → ℕ → ℕ
  pair_hash nodes i = poseidon (get_or nodes (2 * i) 0) (get_or nodes (2 * i + 1) 0)

  below_children :
      (n : ℕ) (nodes : List ℕ) (v j : ℕ)
      → suc n < j
      → get_or (build_internal poseidon n (set nodes (suc n) v)) j 0 ≡ get_or nodes j 0
  below_children n nodes v j h =
      get_or-build_above n _ j (omega arith)
      ∙ get_or-set_ne nodes (suc n) j v 0 (λ e. absurd (omega arith))

  last_node :
      (n : ℕ) (nodes : List ℕ)
      → suc n < length nodes
      → get_or (build_internal poseidon (suc n) nodes) (suc n) 0
        ≡ pair_hash (build_internal poseidon (suc n) nodes) (suc n)
  unfolding build_internal pair_hash
  last_node n nodes len =
      get_or-build_above n _ (suc n) (omega arith)
      ∙ get_or-set_self nodes (suc n) (pair_hash nodes (suc n)) 0 len
      ∙ rw
          (
            below_children n nodes (pair_hash nodes (suc n)) (2 * suc n) (omega arith),
            below_children n nodes (pair_hash nodes (suc n)) (2 * suc n + 1) (omega arith),
          )
          refl

  -- After the loop every node from 1 to n is the hash of its children.
  pub get_or-build :
      (n : ℕ) (nodes : List ℕ) (j : ℕ)
      → 1 ≤ j
      → j ≤ n
      → n < length nodes
      → get_or (build_internal poseidon n nodes) j 0
        ≡ poseidon
            (get_or (build_internal poseidon n nodes) (2 * j) 0)
            (get_or (build_internal poseidon n nodes) (2 * j + 1) 0)
  unfolding build_internal pair_hash
  get_or-build zero nodes j le h len = absurd (omega arith)
  get_or-build (suc n) nodes j le h len = elim (le-split j n h) [
    | inl below ↦
        get_or-build n _ j le below
          (omega (arith, length-set nodes (suc n) (pair_hash nodes (suc n))))
    | inr e ↦ rw e (last_node n nodes len)
  ]
