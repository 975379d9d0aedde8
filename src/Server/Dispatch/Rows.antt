-- ===== src/Server/Dispatch/Rows.antt =====
-- What the telemetry rows of a dispatch are to be, and the methods that write them.
use ultiproxy.Base.{
  ℕ, ◌≡◌, refl, inl, inr, ◌⊎◌, ℤ, Bool, true, false, Option, none, some, List, [], ◌∷◌, ◌++◌, Text,
  arith, Bool-cases,
}
use ultiproxy.Server.Dispatch.{
  Row, in_flight, attempt_row, usage_row, request_row, Dispatch, open_request_row, track_attempt,
  record_request, track_usage,
}

module _ {U : Type 0} where
  -- Attempts and usages alone.
  unfoldable pub children : List (Row U) → Bool
  children [] = true
  children (attempt_row n lane status class retry ∷ rows) = children rows
  children (usage_row u ∷ rows) = children rows
  children (in_flight lane ∷ rows) = false
  children (request_row lane reason class complete ∷ rows) = false

  -- Attempts and usages, then the terminal request row.
  unfoldable pub closing : List (Row U) → Bool
  closing [] = false
  closing (attempt_row n lane status class retry ∷ rows) = closing rows
  closing (usage_row u ∷ rows) = closing rows
  closing (in_flight lane ∷ rows) = false
  closing (request_row lane reason class complete ∷ []) = true
  closing (request_row lane reason class complete ∷ r ∷ rows) = false

  -- No row at all, or the row in flight, its children, and the terminal row.
  unfoldable pub is_ledger : List (Row U) → Bool
  is_ledger [] = true
  is_ledger (in_flight lane ∷ rows) = closing rows
  is_ledger (_ ∷ rows) = false

  -- The row in flight and its children.
  unfoldable pub is_open : List (Row U) → Bool
  is_open [] = false
  is_open (in_flight lane ∷ rows) = children rows
  is_open (_ ∷ rows) = false

  unfoldable is_child : Row U → Bool
  is_child (attempt_row n lane status class retry) = true
  is_child (usage_row u) = true
  is_child _ = false

  children-append :
      (rows : List (Row U)) (r : Row U)
      → children rows ≡ true
      → is_child r ≡ true
      → children (rows ++ (r ∷ [])) ≡ true
  unfolding children is_child
  children-append [] (attempt_row n lane status class retry) h k = refl
  children-append [] (usage_row u) h k = refl
  children-append [] (in_flight lane) h k = cc
  children-append [] (request_row lane reason class complete) h k = cc
  children-append (attempt_row n lane status class retry ∷ rows) r h k = children-append rows r h k
  children-append (usage_row u ∷ rows) r h k = children-append rows r h k
  children-append (in_flight lane ∷ rows) r h k = cc
  children-append (request_row lane reason class complete ∷ rows) r h k = cc

  closing-append :
      (rows : List (Row U)) (lane reason class : Text) (complete : Bool)
      → children rows ≡ true
      → closing (rows ++ (request_row lane reason class complete ∷ [])) ≡ true
  unfolding children closing
  closing-append [] l r c b h = refl
  closing-append (attempt_row n lane status class retry ∷ rows) l r c b h =
      closing-append rows l r c b h
  closing-append (usage_row u ∷ rows) l r c b h = closing-append rows l r c b h
  closing-append (in_flight lane ∷ rows) l r c b h = cc
  closing-append (request_row lane reason class complete ∷ rows) l r c b h = cc

  open-append :
      (rows : List (Row U)) (r : Row U)
      → is_open rows ≡ true
      → is_child r ≡ true
      → is_open (rows ++ (r ∷ [])) ≡ true
  unfolding is_open
  open-append [] r h k = cc
  open-append (in_flight lane ∷ rows) r h k = children-append rows r h k
  open-append (attempt_row n lane status class retry ∷ rows) r h k = cc
  open-append (usage_row u ∷ rows) r h k = cc
  open-append (request_row lane reason class complete ∷ rows) r h k = cc

  ledger-append :
      (rows : List (Row U)) (lane reason class : Text) (complete : Bool)
      → is_open rows ≡ true
      → is_ledger (rows ++ (request_row lane reason class complete ∷ [])) ≡ true
  unfolding is_open is_ledger
  ledger-append [] l r c b h = cc
  ledger-append (in_flight lane ∷ rows) l r c b h = closing-append rows l r c b h
  ledger-append (attempt_row n lane status class retry ∷ rows) l r c b h = cc
  ledger-append (usage_row u ∷ rows) l r c b h = cc
  ledger-append (request_row lane reason class complete ∷ rows) l r c b h = cc

  -- Before the terminal row. Without a writer there is no row.
  abbrev pub IsBlank : Dispatch U → Type 0
  IsBlank d = (d.request_tracked ≡ false) × (d.request_opened ≡ false) × (d.rows ≡ [])

  abbrev pub IsOpen : Dispatch U → Type 0
  IsOpen d =
      (d.request_tracked ≡ false)
      × (d.request_opened ≡ true)
      × (d.has_writer ≡ true)
      × (is_open d.rows ≡ true)

  abbrev pub IsSilent : Dispatch U → Type 0
  IsSilent d = (d.has_writer ≡ false) × (d.request_opened ≡ false) × (d.rows ≡ [])

  abbrev pub IsWaiting : Dispatch U → Type 0
  IsWaiting d = IsBlank d ⊎ IsOpen d ⊎ IsSilent d

  pub track_attempt-IsOpen :
      (n : ℕ) (lane : Text) (status : ℕ) (class : Text) (retry : ℤ) (d : Dispatch U)
      → IsWaiting d
      → IsOpen (track_attempt (attempt_row n lane status class retry) d)
        ⊎ IsSilent (track_attempt (attempt_row n lane status class retry) d)
  unfolding track_attempt open_request_row is_open children is_child
  track_attempt-IsOpen n lane status class retry d (inl h) = elim (Bool-cases d.has_writer) [
    | inl w ↦ inl (ground arith)
    | inr w ↦ inr (ground arith)
  ]
  track_attempt-IsOpen n lane status class retry d (inr (inl (t, o, w, r))) =
      inl (ground (arith, open-append d.rows (attempt_row n lane status class retry) r refl))
  track_attempt-IsOpen n lane status class retry d (inr (inr h)) = inr (ground arith)

  pub track_usage-IsOpen :
      (u : Option U) (d : Dispatch U)
      → IsOpen d ⊎ IsSilent d
      → IsOpen (track_usage u d) ⊎ IsSilent (track_usage u d)
  unfolding track_usage is_child
  track_usage-IsOpen none d h = h
  track_usage-IsOpen (some u) d (inl (t, o, w, r)) =
      inl (ground (arith, open-append d.rows (usage_row u) r refl))
  track_usage-IsOpen (some u) d (inr (w, o, r)) = inr (ground arith)

  pub record_request-ledger :
      (reason class : Text) (complete : Bool) (d : Dispatch U)
      → IsOpen d ⊎ IsSilent d
      → is_ledger (record_request reason class complete d).rows ≡ true
  unfolding record_request open_request_row is_ledger
  record_request-ledger reason class complete d (inl (t, o, w, r)) =
      ground (arith, ledger-append d.rows d.last_provider reason class complete)
  record_request-ledger reason class complete d (inr (w, o, r)) = ground arith

  -- The terminal row closes what is open, and opens it first where nothing is.
  pub record_waiting-ledger :
      (reason class : Text) (complete : Bool) (d : Dispatch U)
      → IsWaiting d
      → is_ledger (record_request reason class complete d).rows ≡ true
  unfolding record_request open_request_row is_ledger closing
  record_waiting-ledger reason class complete d (inl (t, o, r)) = ground arith
  record_waiting-ledger reason class complete d (inr h) =
      record_request-ledger reason class complete d h
