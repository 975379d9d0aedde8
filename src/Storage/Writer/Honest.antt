-- ===== src/Storage/Writer/Honest.antt =====
-- What Close reports: no error means that nothing was lost.
use ultiproxy.Base.{◌≡◌, true, none, []}
use ultiproxy.Storage.Writer.{finished, Writer}
use ultiproxy.Storage.Writer.Account.{joined}

module _ {A : Type 0} where
  -- Without an error so far, the rows are the batches'; a worker that is done has published its
  -- error and left nothing behind, and the writer is closed.
  pub record IsHonest (w : Writer A) : Type 0 where
    pub unfailed : w.first_err ≡ none → w.committed ≡ joined w.batches
    pub emptied : w.phase ≡ finished → (w.queue ≡ []) × (w.closed ≡ true)
    pub published : w.phase ≡ finished → w.flush_err ≡ w.first_err
