-- ===== src/Server/Timeouts/Restart.antt =====
-- Timeouts that outlive a restart.
use ultiproxy.Base.{
  ◌≡◌, refl, ◌∙◌, ap, Bool, true, false, Option, none, some, List, [], ◌∷◌, Text, Duration,
  is_nonpos, lookup, insert, lookup-insert, arith,
}
use ultiproxy.Server.Timeouts.{
  TimeoutManager, holds, parse_positive, load_config, load_runtime, load_file, new_timeout_manager,
  shown, persist_timeouts, set,
}
use ultiproxy.Server.Timeouts.Positive.{all_positive, all_positive-insert, IsPositive}

module _ (parse : Text → Option Duration) (show : Duration → Text) where
  -- What is read back from the rows that were written.
  load_shown :
      (m base : List (Text × Duration)) (j : Text)
      → ((d : Duration) → parse (show d) ≡ some d)
      → all_positive m ≡ true
      → let (loaded, fine) = load_runtime parse (shown show m) base in
        (fine ≡ true)
        × (lookup j loaded ≡ elim (lookup j m) [ none ↦ lookup j base | some d ↦ some d ])
  unfolding shown load_runtime parse_positive all_positive lookup
  load_shown [] base j h k = (refl, refl)
  load_shown ((p, d) ∷ m) base j h k = ground (
    arith,
    h d,
    load_shown m base j h,
    lookup-insert p j d (load_runtime parse (shown show m) base).0,
  )

  set_saved :
      (p : Text) (d : Duration) (written : Bool) (tm : TimeoutManager)
      → tm.has_path ≡ true
      → (set show p d written tm).1 ≡ none
      → ((set show p d written tm).0.file ≡ some (shown show (set show p d written tm).0.timeouts))
        × ((set show p d written tm).0.timeouts ≡ insert p d tm.timeouts)
        × (is_nonpos d ≡ false)
  unfolding set persist_timeouts
  set_saved p d written tm k e = ground arith

  -- A Set that reports no error survives a restart, if durations are read as they are printed: the
  -- restarted manager reports no error, and it has the timeouts that were live after the Set, with
  -- those of the configuration for providers that had none.
  pub set_survives :
      (config : List (Text × Text)) (default : Duration) (p : Text) (d : Duration) (written : Bool)
      (tm : TimeoutManager) (rows : List (Text × Text)) (j : Text)
      → ((x : Duration) → parse (show x) ≡ some x)
      → IsPositive tm
      → tm.has_path ≡ true
      → (set show p d written tm).1 ≡ none
      → (set show p d written tm).0.file ≡ some rows
      → let live = (set show p d written tm).0 in
        let (restarted, e) = new_timeout_manager parse config default true (holds rows) in
        (e ≡ none)
        × (lookup j restarted.timeouts ≡ elim (lookup j live.timeouts) [
          | none ↦ lookup j (load_config parse config)
          | some x ↦ some x
        ])
  unfolding new_timeout_manager load_file
  set_survives config default p d written tm rows j h above_zero k e f =
      let (saved, same, above) = set_saved p d written tm k e in
      let live = (set show p d written tm).0 in
      let stored : all_positive live.timeouts ≡ true =
        ap all_positive same ∙ all_positive-insert p d tm.timeouts above above_zero.explicit in
      let (fine, found) = load_shown live.timeouts (load_config parse config) j h stored in
      let same_rows : shown show live.timeouts ≡ rows = cc in
      rw (← same_rows) (ground (arith, fine), found)
