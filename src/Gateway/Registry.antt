-- ===== src/Gateway/Registry.antt =====
-- The registry of connections (backend/src/websocket/wsServer.ts) with the streams that it opens and
-- closes.
use zk_auth.Prelude.{ℕ, ◌≡◌, arith, Bool, true, false, none, List, [], ◌∷◌, ◌==◌, is_some}
use zk_auth.Gateway.{Gateway, push_to_session, upgrade, on_error, on_close, write_stream, on_drain}

-- The events of the gateway: the end of an upgrade, an error or the close of a socket, a message of a
-- session for its stream, and a drained stream.
pub data Event (E : Type 0) : Type 0 where
  upgrades : Bool → ℕ → ℕ → ℕ → Event E
  fails : ℕ → Event E
  closes : ℕ → ℕ → Event E
  writes drains : (ℕ → Bool) → ℕ → E → Event E

module _ {E M : Type 0} where
  abbrev pub occur : Event E → Gateway E M → Gateway E M
  occur (upgrades created session user ws) g = (upgrade created session user ws g).1
  occur (fails session) g = on_error session g
  occur (closes session ws) g = on_close session ws g
  occur (writes accepts session e) g = write_stream accepts session e g
  occur (drains accepts session e) g = on_drain accepts session g

  abbrev pub occur_all : List (Event E) → Gateway E M → Gateway E M
  occur_all [] g = g
  occur_all (x ∷ xs) g = occur_all xs (occur x g)

  -- A session has a connection and a context together, and a stream only beside a connection.
  abbrev pub IsKept : Gateway E M → Type 0
  IsKept g =
      (session : ℕ)
      → (is_some (g.connections session) ≡ is_some (g.contexts session))
        × (g.connections session ≡ none → g.streams session ≡ none)

  occur-IsKept : (x : Event E) (g : Gateway E M) → IsKept g → IsKept (occur x g)
  occur-IsKept (upgrades true session user ws) g kept j = ground (arith, kept j)
  occur-IsKept (upgrades false session user ws) g kept j = ground (arith, kept j)
  occur-IsKept (fails session) g kept j = ground (arith, kept j)
  occur-IsKept (closes session ws) g kept j = ground (arith, kept j)
  occur-IsKept (writes accepts session e) g kept j = ground (arith, kept j)
  occur-IsKept (drains accepts session e) g kept j = ground (arith, kept j)

  -- In every run of the gateway a session has a context exactly where it has a connection, and no
  -- stream is left behind for a session that has none.
  pub occur_all-IsKept :
      (xs : List (Event E)) (g : Gateway E M) → IsKept g → IsKept (occur_all xs g)
  occur_all-IsKept [] g kept = kept
  occur_all-IsKept (x ∷ xs) g kept = occur_all-IsKept xs (occur x g) (occur-IsKept x g kept)

  -- A socket that fails is closed by the library afterwards, and both events run the clean-up of the
  -- session: where the session has connected again between them, with another socket that is open,
  -- the second clean-up drops the new connection and its stream. Nothing is pushed to the session
  -- any more, though the new socket is open, and a further connection is let in beside it.
  pub stale_close :
      (created : Bool) (session user ws ws2 : ℕ) (message : M) (g : Gateway E M)
      → (ws == ws2) ≡ false
      → let g' = on_close session ws (upgrade created session user ws2 (on_error session g)).1 in
        (g'.is_open ws2 ≡ true)
        × (g'.streams session ≡ none)
        × (push_to_session session message g' ≡ (false, g'))
        × ((upgrade created session user ws g').0 ≡ true)
  stale_close true session user ws ws2 message g other = ground (arith, other)
  stale_close false session user ws ws2 message g other = ground (arith, other)
