-- ===== src/Quota/Classifier/Kinds.antt =====
-- What Classify of pkg/quota/classifier.go answers.
use ultiproxy.Base.{
  ◌≡◌, refl, ℕ, true, false, none, some, Text, pos, Time, ltb_ℤ, is_some, if_cases, ◌⊎◌, inl, inr,
}
use ultiproxy.Quota.Classifier.{Parsers, classify}
use ultiproxy.Quota.Classifier.Timing.{Header, Timing, timing, with_time}

-- A retry time stands beside every positive duration, and a duration by itself gives its time.
with_time-timed :
    (now : Time) (t : Timing)
    → (ltb_ℤ (pos 0) (with_time now t).0 ≡ false) ⊎ (is_some (with_time now t).1 ≡ true)
unfolding with_time
with_time-timed now (d, some t) = inr refl
with_time-timed now (d, none) = if_cases Timed (ltb_ℤ (pos 0) d) _ _ (λ h. inr refl) (λ h. inl h)
  where
    Timed : Timing → Type 0
    Timed t = (ltb_ℤ (pos 0) t.0 ≡ false) ⊎ (is_some t.1 ≡ true)

-- A classified limit whose retry duration is positive also has the time to retry at, whatever
-- headers and body the answer has.
pub limit_timed :
    (ps : Parsers) (now : Time) (status : ℕ) (h : Header) (body provider : Text)
    → let e = classify ps now status h body provider in
      (ltb_ℤ (pos 0) e.retry_after ≡ false) ⊎ (is_some e.retry_at ≡ true)
unfolding classify timing
limit_timed ps now status h body provider = with_time-timed now _
