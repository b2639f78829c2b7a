-- ===== src/Server/Triples.antt =====
-- What holds of the socket after a step of a request of src/server/btpsServer.ts.
use btps_sdk.Prelude.{◌≡◌, true}
use btps_sdk.Server.Pipeline.{Run, StepOf}
use btps_sdk.Server.World.{World, is_closed}

module _ {S : Type 0} where
  abbrev pub IsClosed : World S → Type 0
  IsClosed w = is_closed w.socket ≡ true

  -- The socket is closed after the step, also when it throws.
  pub record Closes {A : Type 0} (m : StepOf S A) : Type 0 where
    pub closes : (r : Run S) → IsClosed (m r).0.1
