-- ===== src/Stores.antt =====
-- The services that the backend keeps its state in, as parameters: Redis string keys and sets
-- (through ioredis) and tables of PostgreSQL (through Prisma). The fields that are equations state
-- their documented behaviour. An identifier, a hash or another text that the code only compares is a
-- number that stands for it; times are in milliseconds. `down` says whether the service fails now: a
-- command then throws and is not carried out (`enableOfflineQueue: false` in
-- backend/src/config/redis.ts).
pub mod Memory
use zk_auth.Prelude.{
  ℕ, ◌+◌, ◌*◌, ◌≤◌, ◌≡◌, refl, ap, inl, inr, arith, is_some, Option-cases, Bool, true, false, ◌||◌,
  Option, none, some, List, [], ◌∷◌, length, ltb, ◌==◌, if◌then◌else◌,
}
use zk_auth.Errors.{other_error, unique_violation}
use zk_auth.Effects.{M, ok, err}

abbrev pub mem : ℕ → List ℕ → Bool
mem k [] = false
mem k (j ∷ js) = k == j || mem k js

-- What `KEEPTTL` leaves at a later time: nothing where the old value has expired by then.
abbrev pub kept {ℓ} : {V : Type ℓ} → Option V → Option V → V → Option V
kept none later v = some v
kept (some old) none v = none
kept (some old) (some _) v = some v

-- The Redis string keys under one prefix of `RedisKeys`, which hold a `V` as JSON.
pub record Keyspace (V : Type 0) : Type 1 where
  pub State : Type 0
  pub down : State → Bool
  -- The value of a key at a time, `none` once it has expired.
  pub live : State → ℕ → ℕ → Option V
  -- SET k v EX seconds, SET k v KEEPTTL, DEL k
  pub put_ex : ℕ → ℕ → V → ℕ → State → State
  pub put_keep : ℕ → ℕ → V → State → State
  pub remove : ℕ → State → State
  pub live-put_ex :
      (now k : ℕ) (v : V) (seconds : ℕ) (s : State) (t j : ℕ)
      → live (put_ex now k v seconds s) t j
        ≡ (if k == j then (if ltb t (now + seconds * 1000) then some v else none) else live s t j)
  pub live-put_keep :
      (now k : ℕ) (v : V) (s : State) (t j : ℕ)
      → now ≤ t
      → live (put_keep now k v s) t j
        ≡ (if k == j then kept (live s now k) (live s t k) v else live s t j)
  pub live-remove :
      (k : ℕ) (s : State) (t j : ℕ) → live (remove k s) t j ≡ (if k == j then none else live s t j)

module _ {V : Type 0} (K : Keyspace V) where
  open K use {State, down, live, put_ex, put_keep, remove}

  abbrev pub get : ℕ → ℕ → M State (Option V)
  get now k s = if down s then err other_error s else ok (live s now k) s

  abbrev pub set_ex : ℕ → ℕ → V → ℕ → M State (Unit {0})
  set_ex now k v seconds s = if down s then err other_error s else ok tt (put_ex now k v seconds s)

  -- SET … NX: `false` is the reply null, for a key that exists.
  abbrev pub set_nx_ex : ℕ → ℕ → V → ℕ → M State Bool
  set_nx_ex now k v seconds s =
      if down s
      then err other_error s
      else elim (live s now k) [ none ↦ ok true (put_ex now k v seconds s) | some _ ↦ ok false s ]

  abbrev pub set_keep : ℕ → ℕ → V → M State (Unit {0})
  set_keep now k v s = if down s then err other_error s else ok tt (put_keep now k v s)

  -- DEL replies how many keys it removed.
  abbrev pub del : ℕ → ℕ → M State ℕ
  del now k s =
      if down s
      then err other_error s
      else ok (elim (live s now k) [ none ↦ 0 | some _ ↦ 1 ]) (remove k s)

  -- A pipeline of DELs.
  abbrev pub remove_all : List ℕ → State → State
  remove_all [] s = s
  remove_all (k ∷ ks) s = remove_all ks (remove k s)

  abbrev pub del_all : List ℕ → M State (Unit {0})
  del_all ks s = if down s then err other_error s else ok tt (remove_all ks s)

  pub live-remove_all :
      (ks : List ℕ) (s : State) (t j : ℕ)
      → live (remove_all ks s) t j ≡ (if mem j ks then none else live s t j)
  live-remove_all [] s t j = refl
  live-remove_all (k ∷ ks) s t j =
      ground (arith, live-remove_all ks (remove k s) t j, K.live-remove k s t j)

-- A Redis set.
pub record MemberSet : Type 1 where
  pub State : Type 0
  pub down : State → Bool
  pub has : State → ℕ → Bool
  pub add : ℕ → State → State
  pub drop : ℕ → State → State
  pub has-add : (m : ℕ) (s : State) (x : ℕ) → has (add m s) x ≡ (if m == x then true else has s x)
  pub has-drop :
      (m : ℕ) (s : State) (x : ℕ) → has (drop m s) x ≡ (if m == x then false else has s x)

module _ (N : MemberSet) where
  open N use {State, down, has, add, drop}

  abbrev pub sismember : ℕ → M State ℕ
  sismember m s = if down s then err other_error s else ok (if has s m then 1 else 0) s

  abbrev pub sadd : ℕ → M State ℕ
  sadd m s = if down s then err other_error s else ok (if has s m then 0 else 1) (add m s)

  abbrev pub srem : ℕ → M State ℕ
  srem m s = if down s then err other_error s else ok (if has s m then 1 else 0) (drop m s)

-- A table with its primary key. `clash` is the check of all its unique columns.
pub record Table (R : Type 0) : Type 1 where
  pub State : Type 0
  pub down : State → Bool
  pub row : State → ℕ → Option R
  pub clash : State → ℕ → R → Bool
  pub write : ℕ → R → State → State
  -- The primary keys of the rows that a `where` clause selects, and the update of those rows.
  pub find_keys : (ℕ → R → Bool) → State → List ℕ
  pub write_all : (ℕ → R → Bool) → (R → R) → State → State
  pub clash_sound : (s : State) (k : ℕ) (r : R) → clash s k r ≡ false → row s k ≡ none
  pub row-write :
      (k : ℕ) (r : R) (s : State) (j : ℕ)
      → row (write k r s) j ≡ (if k == j then some r else row s j)
  pub row-write_all :
      (p : ℕ → R → Bool) (f : R → R) (s : State) (j : ℕ)
      → row (write_all p f s) j
        ≡ elim (row s j) [ none ↦ none | some r ↦ some (if p j r then f r else r) ]
  pub mem-find_keys :
      (p : ℕ → R → Bool) (s : State) (j : ℕ)
      → mem j (find_keys p s) ≡ elim (row s j) [ none ↦ false | some r ↦ p j r ]

module _ {R : Type 0} (T : Table R) where
  open T use {State, down, row, clash, write, find_keys, write_all}

  abbrev pub find_unique : ℕ → M State (Option R)
  find_unique k s = if down s then err other_error s else ok (row s k) s

  abbrev pub create : ℕ → R → M State (Unit {0})
  create k r s =
      if down s
      then err other_error s
      else if clash s k r
      then err unique_violation s
      else ok tt (write k r s)

  abbrev pub mapped : (R → R) → Option R → Option R
  mapped f none = none
  mapped f (some r) = some (f r)

  write_some : ℕ → Option R → State → State
  write_some k none s = s
  write_some k (some r) s = write k r s

  -- UPDATE … WHERE id = k; without such a row it changes nothing.
  unfoldable pub updated : ℕ → (R → R) → State → State
  unfolding write_some
  updated k f s = write_some k (mapped f (row s k)) s

  pub row-updated :
      (k : ℕ) (f : R → R) (s : State) (j : ℕ)
      → row (updated k f s) j ≡ (if k == j then mapped f (row s k) else row s j)
  unfolding updated
  row-updated k f s j = elim (Option-cases (row s k)) [
    | inl e ↦ rw (e, updated) (ground (arith, ap (row s)))
    | inr (r, e) ↦ rw (e, updated) (ground (arith, T.row-write k (f r) s j))
  ]

  -- An update of a row that is not there throws (P2025).
  abbrev pub update : ℕ → (R → R) → M State (Unit {0})
  update k f s =
      if down s
      then err other_error s
      else if is_some (row s k)
      then ok tt (updated k f s)
      else err other_error s

  abbrev pub find_many : (ℕ → R → Bool) → M State (List ℕ)
  find_many p s = if down s then err other_error s else ok (find_keys p s) s

  -- `updateMany` replies how many rows it changed.
  abbrev pub update_many : (ℕ → R → Bool) → (R → R) → M State ℕ
  update_many p f s =
      if down s then err other_error s else ok (length (find_keys p s)) (write_all p f s)

  -- A row found by another unique column, with its primary key.
  abbrev pub first_of_keys : List ℕ → State → Option (ℕ × R)
  first_of_keys [] s = none
  first_of_keys (k ∷ ks) s = elim (row s k) [ none ↦ none | some r ↦ some (k, r) ]

  abbrev pub find_first : (ℕ → R → Bool) → M State (Option (ℕ × R))
  find_first p s = if down s then err other_error s else ok (first_of_keys (find_keys p s) s) s

  first_of_keys_lem :
      (p : ℕ → R → Bool) (ks : List ℕ) (s : State) (k : ℕ) (r : R)
      → ((j : ℕ) → mem j ks ≡ elim (row s j) [ none ↦ false | some q ↦ p j q ])
      → first_of_keys ks s ≡ some (k, r)
      → (row s k ≡ some r) × (p k r ≡ true)
  first_of_keys_lem p [] s k r h e = absurd (ground (arith, e))
  first_of_keys_lem p (i ∷ ks) s k r h e = ground (arith, e, h i)

  -- What `findFirst` finds is a row of the table that the clause selects.
  pub find_first_lem :
      (p : ℕ → R → Bool) (s : State) (k : ℕ) (r : R)
      → first_of_keys (find_keys p s) s ≡ some (k, r)
      → (row s k ≡ some r) × (p k r ≡ true)
  find_first_lem p s k r e = first_of_keys_lem p (find_keys p s) s k r (T.mem-find_keys p s) e

  first_of_keys-none :
      (p : ℕ → R → Bool) (ks : List ℕ) (s : State) (k : ℕ) (r : R)
      → ((j : ℕ) → mem j ks ≡ elim (row s j) [ none ↦ false | some q ↦ p j q ])
      → first_of_keys ks s ≡ none
      → row s k ≡ some r
      → p k r ≡ false
  first_of_keys-none p [] s k r h e found = ground (arith, found, h k)
  first_of_keys-none p (i ∷ ks) s k r h e found = absurd (ground (arith, e, h i))

  -- Where it finds nothing, no row of the table is selected.
  pub find_first_none :
      (p : ℕ → R → Bool) (s : State) (k : ℕ) (r : R)
      → first_of_keys (find_keys p s) s ≡ none
      → row s k ≡ some r
      → p k r ≡ false
  find_first_none p s k r e h = first_of_keys-none p (find_keys p s) s k r (T.mem-find_keys p s) e h

-- A table that is only appended to.
pub record Journal (R : Type 0) : Type 1 where
  pub State : Type 0
  pub down : State → Bool
  pub entries : State → List R
  pub append : R → State → State
  pub entries-append : (r : R) (s : State) → entries (append r s) ≡ r ∷ entries s

module _ {R : Type 0} (J : Journal R) where
  abbrev pub insert : R → M (Journal.State J) (Unit {0})
  insert r s = if Journal.down J s then err other_error s else ok tt (Journal.append J r s)
