-- ===== src/Nullifier/Race.antt =====
-- Concurrent registrations (backend/src/services/zkp/nullifier.service.ts): any number of requests
-- take the steps of `register` in any order, and between two steps Redis may lose or gain anything
-- (a lock that expires, a flush, a failover) and so may every table but the nullifiers' rows, of
-- which none is ever deleted.
use zk_auth.Prelude.{
  ℕ, ◌≡◌, ap, ◌≢◌, ◌⊎◌, inl, inr, Bool, true, false, none, some, arith, ◌==◌, if◌then◌else◌,
  is_some,
}
use zk_auth.Errors.{Error}
use zk_auth.Effects.{ok, err}
use zk_auth.Stores.{Table}
use zk_auth.Schema.{Backends}
use zk_auth.World.{World}
use zk_auth.Nullifier.{Registration, row_of, take_lock, release_lock, gate, insert_row}
use zk_auth.Nullifier.Laws.{durable}

pub data Phase : Type 0 where
  waiting locked gated done refused : Phase

abbrev pub move : ℕ → Phase → (ℕ → Phase) → ℕ → Phase
move i p f j = if i == j then p else f j

module _ (B : Backends) (ttl : ℕ) (reg : ℕ → Registration) where
  pub record Race : Type 0 where
    pub world : World B
    pub phase : ℕ → Phase

  -- Request `i` takes its next step, or the environment does.
  pub data Step : Race → Race → Type 0 where
    locks :
        (s : Race) (i now : ℕ) (w : World B)
        → s.phase i ≡ waiting
        → take_lock B ttl now (reg i) s.world ≡ ok true w
        → Step s (record { world = w; phase = move i locked s.phase })
    is_locked_out :
        (s : Race) (i now : ℕ) (w : World B)
        → s.phase i ≡ waiting
        → take_lock B ttl now (reg i) s.world ≡ ok false w
        → Step s (record { world = w; phase = move i refused s.phase })
    passes :
        (s : Race) (i : ℕ) (w : World B)
        → s.phase i ≡ locked
        → gate B (reg i) s.world ≡ ok tt w
        → Step s (record { world = w; phase = move i gated s.phase })
    is_stopped :
        (s : Race) (i : ℕ) (w : World B) (e : Error)
        → s.phase i ≡ locked
        → gate B (reg i) s.world ≡ err e w
        → Step s (record { world = w; phase = move i refused s.phase })
    stores :
        (s : Race) (i now : ℕ) (w : World B)
        → s.phase i ≡ gated
        → insert_row B now (reg i) s.world ≡ ok tt w
        → Step s (record { world = w; phase = move i done s.phase })
    rolls_back :
        (s : Race) (i now : ℕ) (w : World B) (e : Error)
        → s.phase i ≡ gated
        → insert_row B now (reg i) s.world ≡ err e w
        → Step s (record { world = w; phase = move i refused s.phase })
    unlocks :
        (s : Race) (i now : ℕ) → Step s (record s { world = release_lock B now (reg i) s.world })
    environment :
        (s : Race) (w : World B)
        → ((x : ℕ) → is_some (durable B s.world x) ≡ true → is_some (durable B w x) ≡ true)
        → Step s (record s { world = w })

  pub data Reach (s : Race) : Race → Type 0 where
    here : Reach s s
    next : {t u : Race} → Reach s t → Step t u → Reach s u

  -- Every winner has its row, and two winners of one hash are the same request.
  pub record IsExclusive (s : Race) : Type 0 where
    pub recorded :
        (i : ℕ) → s.phase i ≡ done → is_some (durable B s.world (reg i).nullifier_hash) ≡ true
    pub unique :
        (i j : ℕ)
        → s.phase i ≡ done
        → s.phase j ≡ done
        → (reg i).nullifier_hash ≡ (reg j).nullifier_hash
        → i ≡ j

  take_lock_rows :
      (now : ℕ) (r : Registration) (w w' : World B) (b : Bool)
      → take_lock B ttl now r w ≡ ok b w'
      → w'.nullifier_rows ≡ w.nullifier_rows
  unfolding take_lock
  take_lock_rows now r w w' b e = ground arith

  gate_rows :
      (r : Registration) (w w' : World B)
      → (gate B r w ≡ ok tt w') ⊎ ((e : Error) × (gate B r w ≡ err e w'))
      → w'.nullifier_rows ≡ w.nullifier_rows
  unfolding gate
  gate_rows r w w' h = ground arith

  release_lock_rows :
      (now : ℕ) (r : Registration) (w : World B)
      → (release_lock B now r w).nullifier_rows ≡ w.nullifier_rows
  unfolding release_lock
  release_lock_rows now r w = ground arith

  insert_row_ok :
      (now : ℕ) (r : Registration) (w w' : World B) (x : ℕ)
      → insert_row B now r w ≡ ok tt w'
      → (durable B w r.nullifier_hash ≡ none)
        × (durable B w' x ≡ (if r.nullifier_hash == x then some (row_of now r) else durable B w x))
  unfolding insert_row
  insert_row_ok now r w w' x e = ground (
    arith,
    Table.row-write B.nullifier_rows r.nullifier_hash (row_of now r) w.nullifier_rows x,
    Table.clash_sound B.nullifier_rows w.nullifier_rows r.nullifier_hash (row_of now r),
  )

  insert_row_err :
      (now : ℕ) (r : Registration) (w w' : World B) (e : Error)
      → insert_row B now r w ≡ err e w'
      → w'.nullifier_rows ≡ w.nullifier_rows
  unfolding insert_row
  insert_row_err now r w w' e h = ground arith

  -- A step that makes no winner and keeps the rows.
  keep-IsExclusive :
      (s : Race) (w : World B) (i : ℕ) (p : Phase)
      → p ≢ done
      → ((x : ℕ) → is_some (durable B s.world x) ≡ true → is_some (durable B w x) ≡ true)
      → IsExclusive s
      → IsExclusive (record { world = w; phase = move i p s.phase })
  keep-IsExclusive s w i p np rows v = record {
    recorded = λ j h. ground (arith, rows (reg j).nullifier_hash, v.recorded j);
    unique = λ j k h l e. ground (arith, v.unique j k);
  }

  same_rows :
      (w w' : World B) (x : ℕ)
      → w'.nullifier_rows ≡ w.nullifier_rows
      → is_some (durable B w x) ≡ true
      → is_some (durable B w' x) ≡ true
  same_rows w w' x e h = rw e h

  stores-IsExclusive :
      (s : Race) (i now : ℕ) (w : World B)
      → insert_row B now (reg i) s.world ≡ ok tt w
      → IsExclusive s
      → IsExclusive (record { world = w; phase = move i done s.phase })
  stores-IsExclusive s i now w e v = record {
    recorded = λ j h.
        ground (arith, insert_row_ok now (reg i) s.world w (reg j).nullifier_hash e, v.recorded j);
    unique = λ j k h l same. ground (
      arith,
      insert_row_ok now (reg i) s.world w (reg i).nullifier_hash e,
      v.recorded j,
      v.recorded k,
      v.unique j k,
      ap (durable B s.world) same,
    );
  }

  Step-IsExclusive : {s t : Race} → Step s t → IsExclusive s → IsExclusive t
  Step-IsExclusive (locks s i now w h e) v =
      keep-IsExclusive s w i locked (λ q. cc)
        (λ x. same_rows s.world w x (take_lock_rows now (reg i) s.world w true e)) v
  Step-IsExclusive (is_locked_out s i now w h e) v =
      keep-IsExclusive s w i refused (λ q. cc)
        (λ x. same_rows s.world w x (take_lock_rows now (reg i) s.world w false e)) v
  Step-IsExclusive (passes s i w h e) v =
      keep-IsExclusive s w i gated (λ q. cc)
        (λ x. same_rows s.world w x (gate_rows (reg i) s.world w (inl e))) v
  Step-IsExclusive (is_stopped s i w e h q) v =
      keep-IsExclusive s w i refused (λ p. cc)
        (λ x. same_rows s.world w x (gate_rows (reg i) s.world w (inr (e, q)))) v
  Step-IsExclusive (stores s i now w h e) v = stores-IsExclusive s i now w e v
  Step-IsExclusive (rolls_back s i now w e h q) v =
      keep-IsExclusive s w i refused (λ p. cc)
        (λ x. same_rows s.world w x (insert_row_err now (reg i) s.world w e q)) v
  Step-IsExclusive (unlocks s i now) v = record {
    recorded = λ j h.
        same_rows s.world (release_lock B now (reg i) s.world) (reg j).nullifier_hash
          (release_lock_rows now (reg i) s.world) (v.recorded j h);
    unique = v.unique;
  }
  Step-IsExclusive (environment s w rows) v = record {
    recorded = λ j h. rows _ (v.recorded j h);
    unique = v.unique;
  }

  Reach-IsExclusive : {s t : Race} → Reach s t → IsExclusive s → IsExclusive t
  Reach-IsExclusive here v = v
  Reach-IsExclusive (next r st) v = Step-IsExclusive st (Reach-IsExclusive r v)

  -- However the steps of the requests interleave, and whatever Redis forgets between them, two
  -- requests that have both registered the same nullifier hash are one request.
  pub register_at_most_once :
      (w : World B) (t : Race) (i j : ℕ)
      → Reach (record { world = w; phase = λ _. waiting }) t
      → t.phase i ≡ done
      → t.phase j ≡ done
      → (reg i).nullifier_hash ≡ (reg j).nullifier_hash
      → i ≡ j
  register_at_most_once w t i j r h l same =
      let start : IsExclusive (record { world = w; phase = λ _. waiting }) = record {
        recorded = λ k e. cc;
        unique = λ k m e f g. cc;
      } in
      (Reach-IsExclusive r start).unique i j h l same
