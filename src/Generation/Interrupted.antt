-- ===== src/Generation/Interrupted.antt =====
-- A primary switch that is reported while a refresh waits for the backend.
use byte_danceliveauctioni.Base.{◌≡◌, refl, ap, ◌∙◌, true, false, String, Result, ok, err, arith}
use byte_danceliveauctioni.Base.Text.{str_eq, str_eq_iff, is_empty, trim_space}
use byte_danceliveauctioni.Generation.Refresh.{
  Guard, Config, Answers, refresh, refresh_identity, refresh_generation, close_refresh,
  still_suspected, read_and_decide, decide_answer, decide, verification_fresh, mark_ready,
  allow_write, trust,
}

module _ (c : Config) (a : Answers) (g : Guard) where
  decide-fresh :
      is_empty g.suspected ≡ true
      → verification_fresh c g a ≡ true
      → decide c g a g.generation g.generation ≡ trust
  unfolding decide
  decide-fresh s f =
      let same : str_eq g.generation g.generation ≡ true =
        (str_eq_iff g.generation g.generation).1 refl in
      ground arith

  read_and_decide-fresh :
      a.verified ≡ ok g.generation
      → is_empty g.suspected ≡ true
      → verification_fresh c g a ≡ true
      → read_and_decide c g a g.generation ≡ trust
  unfolding read_and_decide decide_answer
  read_and_decide-fresh v s f = ap (decide_answer c g a g.generation) v ∙ decide-fresh s f

  interrupted_generation :
      (generation : String)
      → generation ≡ g.generation
      → is_empty g.generation ≡ false
      → is_empty g.suspected ≡ true
      → read_and_decide c g a generation ≡ trust
      → allow_write (refresh_generation c a true g generation).0 ≡ ok g.generation
  unfolding refresh_generation close_refresh still_suspected mark_ready allow_write
  interrupted_generation generation e n s t = ground arith

  interrupted_identity :
      (answer : Result String String) (identity : String)
      → answer ≡ ok identity
      → trim_space identity ≡ g.generation
      → a.verified ≡ ok g.generation
      → is_empty g.generation ≡ false
      → is_empty g.suspected ≡ true
      → verification_fresh c g a ≡ true
      → allow_write (refresh_identity c a true g answer).0 ≡ ok g.generation
  unfolding refresh_identity
  interrupted_identity (err why) identity i t v n s f = cc
  interrupted_identity (ok named) identity i t v n s f =
      let e : trim_space named ≡ g.generation = ap trim_space (ground arith) ∙ t in
      let k =
        interrupted_generation (trim_space named) e n s (simp e (read_and_decide-fresh v s f)) in
      simp (ap is_empty e ∙ n) k

-- For every ready guard that suspects nothing: if SignalSwitchMaster comes while a refresh waits that has
-- read the old primary and its marker, and the last verification is fresh, then the refresh ends ready, and
-- AllowWrite gives the old generation: the signal is lost.
pub interrupted-allow_write :
    (c : Config) (a : Answers) (g : Guard) (identity : String)
    → a.identity ≡ ok identity
    → trim_space identity ≡ g.generation
    → a.verified ≡ ok g.generation
    → is_empty g.generation ≡ false
    → is_empty g.suspected ≡ true
    → verification_fresh c g a ≡ true
    → allow_write (refresh c a true g).0 ≡ ok g.generation
unfolding refresh
interrupted-allow_write c a g identity i t v n s f =
    interrupted_identity c a g a.identity identity i t v n s f
