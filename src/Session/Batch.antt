-- ===== src/Session/Batch.antt =====
-- src/session/batch.rs: the queue of sessions that waits for the store.
use rust_socks.Prelude.{ℕ, Bool, true, false, if◌then◌else◌, leb, List, [], ◌∷◌, ◌++◌, length}
use rust_socks.Session.Types.{Session}

-- `written` are the sessions of the batches that `save_batch` has taken, `lost` those of the batches
-- for which it answered with an error, which is only logged. `notified` is the permit of
-- `flush_notify`.
pub record BatchWriter : Type 0 where
  pub batch_size : ℕ
  pub queue : List Session
  pub notified : Bool
  pub written : List Session
  pub lost : List Session

abbrev pub default_batch_size : ℕ
default_batch_size = 100

abbrev pub new_writer : ℕ → BatchWriter
new_writer batch_size = record {
  batch_size = batch_size;
  queue = [];
  notified = false;
  written = [];
  lost = [];
}

unfoldable pub enqueue : Session → BatchWriter → BatchWriter
enqueue session w =
    let queue = w.queue ++ session ∷ [] in
    record w {
      queue = queue;
      notified = (if leb w.batch_size (length queue) then true else w.notified);
    }

-- The argument is whether `save_batch` succeeds.
unfoldable pub flush : Bool → BatchWriter → BatchWriter
flush saved w = elim w.queue [
  | [] ↦ w
  | session ∷ sessions ↦
      let batch = session ∷ sessions in
      if saved
      then record w { queue = []; written = w.written ++ batch }
      else record w { queue = []; lost = w.lost ++ batch }
]

-- The loop of `start` after `flush_notify.notified()`, which takes the permit.
unfoldable pub on_notified : Bool → BatchWriter → BatchWriter
on_notified saved w = if w.notified then flush saved (record w { notified = false }) else w

abbrev pub shutdown_writer : Bool → BatchWriter → BatchWriter
shutdown_writer saved w = flush saved w
