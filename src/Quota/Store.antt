-- ===== src/Quota/Store.antt =====
-- The store of the quota snapshots: pkg/quota/store.go. A method that reads the clock takes its
-- reading.
use ultiproxy.Base.{
  Bool, false, Option, none, some, List, [], Text, Time, zero_time, Duration, pos, second, ltb,
  ◌==◌, ◌*◌, if◌then◌else◌, lookup, insert,
}
use ultiproxy.Quota.Scheduler.{QuotaSnapshot}

-- A snapshot may be nil.
pub record QuotaStore (F : Type 0) : Type 0 where
  pub snapshots : List (Text × Option (QuotaSnapshot F))
  pub refreshing : Bool
  pub refresh_started_at : Option Time
  pub refresh_min_interval : Duration
  pub last_refresh_error : Option Text
  pub last_fetched_at : Time

module _ {F : Type 0} where
  unfoldable pub new_store : QuotaStore F
  new_store = record {
    snapshots = [];
    refreshing = false;
    refresh_started_at = none;
    refresh_min_interval = pos (30 * second);
    last_refresh_error = none;
    last_fetched_at = zero_time;
  }

  unfoldable pub get : Text → QuotaStore F → Option (Option (QuotaSnapshot F))
  get name s = lookup name s.snapshots

  -- The last fetch after a snapshot.
  unfoldable pub fetched_at : Option (QuotaSnapshot F) → Time → Time → Time
  fetched_at none now last = now
  fetched_at (some snap) now last =
      if snap.observed_at == zero_time
      then now
      else if ltb last snap.observed_at
      then snap.observed_at
      else last

  unfoldable pub set : Text → Option (QuotaSnapshot F) → Time → QuotaStore F → QuotaStore F
  set name snap now s = record s {
    snapshots = insert name snap s.snapshots;
    last_fetched_at = fetched_at snap now s.last_fetched_at;
  }

  unfoldable pub set_refreshing : Bool → Option Time → QuotaStore F → QuotaStore F
  set_refreshing refreshing started s = record s {
    refreshing = refreshing;
    refresh_started_at = started;
  }

  unfoldable pub set_last_refresh_error : Option Text → QuotaStore F → QuotaStore F
  set_last_refresh_error err s = record s { last_refresh_error = err }

  unfoldable pub set_last_fetched_at : Time → QuotaStore F → QuotaStore F
  set_last_fetched_at t s = record s { last_fetched_at = t }
