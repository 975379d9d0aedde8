-- ===== src/Codec/Says.antt =====
-- What a stream encoder of pkg/codec has said to its reader by the frames that it has written, and
-- how the steps of an event add to it.
use ultiproxy.Base.{
  ◌≡◌, refl, ap, ◌∙◌, sym, subst, append_assoc, append_nil, Bool, true, false, List, [], ◌∷◌, ◌++◌,
}
use ultiproxy.Codec.Out.{Out, fprintf, Accepting, put, fprintf-Accepting, ◌then_do◌}
use ultiproxy.Codec.Said.{Saying, all_said, all_said-append}

-- An encoder's writer, how it is replaced, and what a frame says.
pub record Speaker : Type 1 where
  pub Encoder : Type 0
  pub Frame : Type 0
  pub out : Encoder → Out Frame
  pub with_out : Encoder → Out Frame → Encoder
  pub out-with_out : (e : Encoder) (o : Out Frame) → out (with_out e o) ≡ o
  pub frame_said : Frame → List Saying

module _ (s : Speaker) where
  abbrev pub said : s.Encoder → List Saying
  said e = all_said s.frame_said (s.out e).written

-- A step without an error that says `l`, on a writer that goes on accepting.
pub record Says (s : Speaker) (l before : List Saying) (r : s.Encoder × Bool) : Type 0 where
  pub accepting : Accepting (s.out r.0)
  pub accepted : r.1 ≡ true
  pub said_more : said s r.0 ≡ before ++ l

module _ (s : Speaker) where
  pub emit-Says :
      (f : s.Frame) (e : s.Encoder)
      → Accepting (s.out e)
      → Says s
          (s.frame_said f)
          (said s e)
          (s.with_out e (fprintf f (s.out e)).0, (fprintf f (s.out e)).1)
  unfolding all_said
  emit-Says f e a =
      let o = put f (s.out e) in
      let same = s.out-with_out e o in
      subst (λ r. Says s (s.frame_said f) (said s e) (s.with_out e r.0, r.1))
        (sym (fprintf-Accepting f (s.out e) a))
        (record {
          accepting = subst Accepting (sym same) a;
          accepted = refl;
          said_more =
              ap (λ x. all_said s.frame_said x.written) same
              ∙ all_said-append s.frame_said (s.out e).written (f ∷ [])
              ∙ ap (λ l. said s e ++ l) (append_nil (s.frame_said f));
        })

  pub silent : (e : s.Encoder) → Accepting (s.out e) → Says s [] (said s e) (e, true)
  silent e a = record { accepting = a; accepted = refl; said_more = sym (append_nil (said s e)) }

  pub then_do-Says :
      {l l' before : List Saying} (m : s.Encoder × Bool) {k : s.Encoder → s.Encoder × Bool}
      → Says s l before m
      → ((e : s.Encoder) → Accepting (s.out e) → Says s l' (said s e) (k e))
      → Says s (l ++ l') before (m then_do k)
  then_do-Says {l} {l'} {before} (e, true) {k} p h =
      let q = h e p.accepting in
      record {
        accepting = q.accepting;
        accepted = q.accepted;
        said_more = q.said_more ∙ ap (λ x. x ++ l') p.said_more ∙ append_assoc before l l';
      }
  then_do-Says {l} {l'} {before} (e, false) {k} p h =
      let absurd : true ≡ false = sym p.accepted in cc

  -- A step whose error is dropped.
  pub drop_error :
      {l before : List Saying} (r : s.Encoder × Bool)
      → Says s l before r
      → Says s l before (r.0, true)
  drop_error r q = record { accepting = q.accepting; accepted = refl; said_more = q.said_more }
