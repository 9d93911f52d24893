-- ===== src/Nullifier/Examples.antt =====
-- Registrations over the stores in memory.
use zk_auth.Prelude.{ℕ, ◌≡◌, refl, true, false, some, [], ◌==◌}
use zk_auth.Errors.{replay}
use zk_auth.Effects.{final, FailsWith}
use zk_auth.World.{World}
use zk_auth.Fixtures.{memory, empty}
use zk_auth.Nullifier.{Registration, register, take_lock, gate, insert_row}
use zk_auth.Nullifier.Laws.{spent}
use zk_auth.Nullifier.Race.{
  Race, waiting, done, move, locked, gated, here, next, locks, passes, stores,
  register_at_most_once,
}

abbrev first : Registration
first = record { nullifier_hash = 77; user_id = 1; challenge_id = 5 }

abbrev spent_world : World memory
spent_world = record empty { nullifiers = record { member = λ x. x == 77; is_down = false } }

abbrev locked_world : World memory
locked_world = record empty {
  nullifier_locks = record {
    cell = λ _. some (record { value = tt; expires = some 9000 });
    is_down = false;
  };
}

register_test :
    (spent memory (final (register memory 5 0 first empty)) 77 ≡ true)
    × FailsWith replay (register memory 5 100 first (final (register memory 5 0 first empty)))
unfolding register
register_test = (refl, refl)

-- A failing insert is rolled back.
rollback_test :
    spent memory
      (final (
        register memory 5 0 first
          (record empty { nullifier_rows = record { rows = []; is_down = true } })))
      77
    ≡ false
unfolding register
rollback_test = refl

-- One request wins alone.
abbrev after_lock : World memory
after_lock = final (take_lock memory 5 0 first empty)

abbrev after_gate : World memory
after_gate = final (gate memory first after_lock)

abbrev after_insert : World memory
after_insert = final (insert_row memory 0 first after_gate)

abbrev won : Race memory 5 (λ _. first)
won = record {
  world = after_insert;
  phase = move 3 done (move 3 gated (move 3 locked (λ _. waiting)));
}

register_at_most_once_example : ◌≡◌ {A = ℕ} 3 3
unfolding take_lock gate insert_row
register_at_most_once_example =
    register_at_most_once memory 5 (λ _. first) empty won 3 3
      (next (next (next here (locks _ 3 0 after_lock refl refl)) (passes _ 3 after_gate refl refl))
        (stores _ 3 0 after_insert refl refl))
      refl refl refl
