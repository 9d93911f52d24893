-- ===== src/Stores/Memory.antt =====
-- Stores in memory that meet the interfaces of `Stores`: they show that what the development assumes
-- of Redis and PostgreSQL can hold, and they run in the tests.
use zk_auth.Prelude.{
  ℕ, ◌+◌, ◌*◌, ◌≤◌, ◌≡◌, refl, Bool, true, false, Option, none, some, List, [], ◌∷◌, arith, ap,
  select, is_some, ltb, ◌==◌, if◌then◌else◌,
}
use zk_auth.Stores.{mem, kept, Keyspace, MemberSet, Table, Journal}

-- A value and the time at which it expires, if it does.
pub record Cell (V : Type 0) : Type 0 where
  pub value : V
  pub expires : Option ℕ

pub record Cells (V : Type 0) : Type 0 where
  pub cell : ℕ → Option (Cell V)
  pub is_down : Bool

module _ {V : Type 0} where
  abbrev pub until : Option ℕ → ℕ → V → Option V
  until none t v = some v
  until (some d) t v = if ltb t d then some v else none

  abbrev pub alive : Option (Cell V) → ℕ → Option V
  alive none t = none
  alive (some c) t = until c.expires t c.value

  abbrev pub expiry : Option (Cell V) → Option ℕ
  expiry none = none
  expiry (some c) = c.expires

  abbrev pub put : ℕ → Option (Cell V) → Cells V → Cells V
  put k c s = record s { cell = λ j. if k == j then c else s.cell j }

  abbrev pub renewed : ℕ → Option (Cell V) → V → Cell V
  renewed now old v = record {
    value = v;
    expires = if is_some (alive old now) then expiry old else none;
  }

  renewed_lem :
      (now t : ℕ) (old : Option (Cell V)) (v : V)
      → now ≤ t
      → alive (some (renewed now old v)) t ≡ kept (alive old now) (alive old t) v
  renewed_lem now t none v h = refl
  renewed_lem now t (some c) v h = ground arith

  pub live_keep :
      (now k : ℕ) (v : V) (s : Cells V) (t j : ℕ)
      → now ≤ t
      → alive ((put k (some (renewed now (s.cell k) v)) s).cell j) t ≡ (
          if k == j then kept (alive (s.cell k) now) (alive (s.cell k) t) v else alive (s.cell j) t)
  live_keep now k v s t j h = ground (arith, renewed_lem now t (s.cell k) v)

  pub live_put_ex :
      (now k : ℕ) (v : V) (seconds : ℕ) (s : Cells V) (t j : ℕ)
      → alive
          ((put k (some (record { value = v; expires = some (now + seconds * 1000) })) s).cell j)
          t
        ≡ (if k == j
            then (if ltb t (now + seconds * 1000) then some v else none)
            else alive (s.cell j) t)
  live_put_ex now k v seconds s t j = ground arith

  pub live_remove :
      (k : ℕ) (s : Cells V) (t j : ℕ)
      → alive ((put k none s).cell j) t ≡ (if k == j then none else alive (s.cell j) t)
  live_remove k s t j = ground arith

  abbrev pub memory_keys : Keyspace V
  memory_keys = record {
    State = Cells V;
    down = λ s. s.is_down;
    live = λ s t k. alive (s.cell k) t;
    put_ex = λ now k v seconds s.
        put k (some (record { value = v; expires = some (now + seconds * 1000) })) s;
    put_keep = λ now k v s. put k (some (renewed now (s.cell k) v)) s;
    remove = λ k s. put k none s;
    live-put_ex = live_put_ex;
    live-put_keep = live_keep;
    live-remove = live_remove;
  }

pub record Members : Type 0 where
  pub member : ℕ → Bool
  pub is_down : Bool

pub has_add :
    (m : ℕ) (s : Members) (x : ℕ)
    → (if m == x then true else s.member x) ≡ (if m == x then true else s.member x)
has_add m s x = refl

pub has_drop :
    (m : ℕ) (s : Members) (x : ℕ)
    → (if m == x then false else s.member x) ≡ (if m == x then false else s.member x)
has_drop m s x = refl

abbrev pub memory_set : MemberSet
memory_set = record {
  State = Members;
  down = λ s. s.is_down;
  has = λ s x. s.member x;
  add = λ m s. record s { member = λ x. if m == x then true else s.member x };
  drop = λ m s. record s { member = λ x. if m == x then false else s.member x };
  has-add = has_add;
  has-drop = has_drop;
}

pub record Rows (R : Type 0) : Type 0 where
  pub rows : List (ℕ × R)
  pub is_down : Bool

mem-select :
    (t : ℕ → Bool) (ks : List ℕ) (j : ℕ) → mem j (select t ks) ≡ (if t j then mem j ks else false)
mem-select t [] j = ground arith
mem-select t (k ∷ ks) j = ground (arith, mem-select t ks j, λ (e : j ≡ k). ap t e)

module _ {R : Type 0} where
  abbrev pub look : ℕ → List (ℕ × R) → Option R
  look k [] = none
  look k ((j, r) ∷ rs) = if j == k then some r else look k rs

  abbrev pub keys : List (ℕ × R) → List ℕ
  keys [] = []
  keys ((j, r) ∷ rs) = j ∷ keys rs

  abbrev pub change : (ℕ → R → R) → List (ℕ × R) → List (ℕ × R)
  change f [] = []
  change f ((j, r) ∷ rs) = (j, f j r) ∷ change f rs

  abbrev pub holds : (ℕ → R → Bool) → ℕ → Option R → Bool
  holds p k none = false
  holds p k (some r) = p k r

  pub look-change :
      (p : ℕ → R → Bool) (f : R → R) (rs : List (ℕ × R)) (j : ℕ)
      → look j (change (λ k r. if p k r then f r else r) rs)
        ≡ elim (look j rs) [ none ↦ none | some r ↦ some (if p j r then f r else r) ]
  look-change p f [] j = refl
  look-change p f ((k, r) ∷ rs) j = ground (arith, look-change p f rs j)

  mem-keys : (rs : List (ℕ × R)) (j : ℕ) → mem j (keys rs) ≡ is_some (look j rs)
  mem-keys [] j = refl
  mem-keys ((k, r) ∷ rs) j = ground (arith, mem-keys rs j)

  pub found :
      (p : ℕ → R → Bool) (s : Rows R) (j : ℕ)
      → mem j (select (λ k. holds p k (look k s.rows)) (keys s.rows))
        ≡ elim (look j s.rows) [ none ↦ false | some r ↦ p j r ]
  found p s j =
      ground (arith, mem-select (λ k. holds p k (look k s.rows)) (keys s.rows) j, mem-keys s.rows j)

  pub clash_sound :
      (s : Rows R) (k : ℕ) (r : R) → is_some (look k s.rows) ≡ false → look k s.rows ≡ none
  clash_sound s k r h = ground arith

  pub row-write :
      (k : ℕ) (r : R) (s : Rows R) (j : ℕ)
      → look j ((k, r) ∷ s.rows) ≡ (if k == j then some r else look j s.rows)
  row-write k r s j = refl

  abbrev pub memory_table : Table R
  memory_table = record {
    State = Rows R;
    down = λ s. s.is_down;
    row = λ s k. look k s.rows;
    clash = λ s k r. is_some (look k s.rows);
    write = λ k r s. record s { rows = (k, r) ∷ s.rows };
    find_keys = λ p s. select (λ k. holds p k (look k s.rows)) (keys s.rows);
    write_all = λ p f s. record s { rows = change (λ k r. if p k r then f r else r) s.rows };
    clash_sound = clash_sound;
    row-write = row-write;
    row-write_all = λ p f s j. look-change p f s.rows j;
    mem-find_keys = found;
  }

pub record Entries (R : Type 0) : Type 0 where
  pub entries : List R
  pub is_down : Bool

module _ {R : Type 0} where
  pub entries-append : (r : R) (s : Entries R) → ◌≡◌ {A = List R} (r ∷ s.entries) (r ∷ s.entries)
  entries-append r s = refl

  abbrev pub memory_journal : Journal R
  memory_journal = record {
    State = Entries R;
    down = λ s. s.is_down;
    entries = λ s. s.entries;
    append = λ r s. record s { entries = r ∷ s.entries };
    entries-append = entries-append;
  }
