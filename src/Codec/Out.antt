-- ===== src/Codec/Out.antt =====
-- The io.Writer of a stream encoder (pkg/codec), frame by frame, and the chains of `if err != nil`.
use ultiproxy.Base.{◌≡◌, ℕ, ◌+◌, Bool, true, false, List, [], ◌∷◌, ◌++◌, if◌then◌else◌}

-- A writer with what it has taken: `accepts n` is whether its n-th write succeeds.
pub record Out (A : Type 0) : Type 0 where
  pub accepts : ℕ → Bool
  pub attempts : ℕ
  pub written : List A

module _ {A : Type 0} where
  -- fmt.Fprintf of one frame, and whether it returned no error.
  unfoldable pub fprintf : A → Out A → Out A × Bool
  fprintf a out =
      if out.accepts out.attempts
      then (record out { attempts = out.attempts + 1; written = out.written ++ (a ∷ []) }, true)
      else (record out { attempts = out.attempts + 1 }, false)

  abbrev pub Accepting : Out A → Type 0
  Accepting out = (n : ℕ) → out.accepts n ≡ true

  -- An accepting writer with one more frame.
  abbrev pub put : A → Out A → Out A
  put a out = record out { attempts = out.attempts + 1; written = out.written ++ (a ∷ []) }

  pub fprintf-Accepting : (a : A) (out : Out A) → Accepting out → fprintf a out ≡ (put a out, true)
  unfolding fprintf
  fprintf-Accepting a out h = rw (h out.attempts)

-- `if err := m; err != nil { return err }`, then k.
infixl 5 ◌then_do◌
abbrev pub ◌then_do◌ {ℓ} : {E : Type ℓ} → E × Bool → (E → E × Bool) → E × Bool
(e, true) then_do k = k e
(e, false) then_do k = (e, false)

-- What holds after both halves of a chain holds after it.
pub then_do-keeps {ℓ ℓ'} :
    {E : Type ℓ} (P : E → Type ℓ') (m : E × Bool) (k : E → E × Bool)
    → P m.0
    → ((e : E) → P e → P (k e).0)
    → P (m then_do k).0
then_do-keeps P (e, true) k p h = h e p
then_do-keeps P (e, false) k p h = p

-- The same, with one property between the halves and another after both.
pub then_do-into {ℓ ℓ' ℓ''} :
    {E : Type ℓ} (P : E → Type ℓ') (Q : E → Type ℓ'') (m : E × Bool) (k : E → E × Bool)
    → P m.0
    → ((e : E) → P e → Q e)
    → ((e : E) → P e → Q (k e).0)
    → Q (m then_do k).0
then_do-into P Q (e, true) k p stop go = go e p
then_do-into P Q (e, false) k p stop go = stop e p
