-- ===== src/Generation/Trusted.antt =====
-- What a refresh that succeeds has checked.
use byte_danceliveauctioni.Base.{
  ◌≡◌, refl, ◌⊎◌, inl, inr, Bool, true, false, String, Result, ok, err, arith, Bool-cases,
}
use byte_danceliveauctioni.Base.Text.{str_eq, is_empty, trim_space}
use byte_danceliveauctioni.Generation.Refresh.{
  Guard, Config, Answers, trust, refresh, refresh_identity, refresh_generation, close_refresh,
  still_suspected, read_and_decide, decide_answer, decide, confirm, differs, mark_ready,
}

-- The marker in Redis named the generation before the refresh.
pub record IsMarked (a : Answers) (generation : String) : Type 0 where
  pub marker : String
  pub answered : a.verified ≡ ok marker
  pub same : str_eq marker generation ≡ true

-- The verification passed, the primary was the same before and after the marker was published, and the
-- marker was read back.
pub record IsVerified (a : Answers) (generation : String) : Type 0 where
  pub passed : a.verification ≡ ok tt
  pub confirmed : differs a.confirmed generation ≡ false
  pub published : a.published ≡ ok tt
  pub unchanged : differs a.confirmed_after generation ≡ false
  pub read_back : differs a.verified_after generation ≡ false

confirm-trust :
    (a : Answers) (generation : String)
    → a.verification ≡ ok tt
    → confirm a generation ≡ trust
    → IsVerified a generation
unfolding confirm
confirm-trust a generation passed h = ground arith

decide-unmarked :
    (c : Config) (g : Guard) (a : Answers) (generation verified : String)
    → str_eq verified generation ≡ false
    → decide c g a generation verified ≡ trust
    → (a.verification ≡ ok tt) × (confirm a generation ≡ trust)
unfolding decide
decide-unmarked c g a generation verified other h = ground arith

decide_answer-trust :
    (c : Config) (g : Guard) (a : Answers) (generation : String) (answer : Result String String)
    → a.verified ≡ answer
    → decide_answer c g a generation answer ≡ trust
    → IsMarked a generation ⊎ IsVerified a generation
unfolding decide_answer
decide_answer-trust c g a generation (err why) e h = ground arith
decide_answer-trust c g a generation (ok verified) e h =
    elim (Bool-cases (str_eq verified generation)) [
      | inl same ↦ inl (record { marker = verified; answered = e; same = same })
      | inr other ↦
          let k = decide-unmarked c g a generation verified other (ground arith) in
          inr (confirm-trust a generation k.0 k.1)
    ]

-- A refresh that succeeds: the guard is ready for the generation that the primary named, which is not
-- the suspected one, and the generation is confirmed.
pub record IsTrusted (a : Answers) (g g' : Guard) : Type 0 where
  pub identity : String
  pub answered : a.identity ≡ ok identity
  pub ready : g'.ready ≡ true
  pub generation : g'.generation ≡ trim_space identity
  pub not_empty : is_empty (trim_space identity) ≡ false
  pub unsuspected : still_suspected g (trim_space identity) ≡ false
  pub confirmed : IsMarked a (trim_space identity) ⊎ IsVerified a (trim_space identity)

refresh_generation-trust :
    (c : Config) (a : Answers) (signalled : Bool) (g g' : Guard) (generation : String)
    → refresh_generation c a signalled g generation ≡ (g', ok tt)
    → (still_suspected g generation ≡ false)
      × (read_and_decide c g a generation ≡ trust)
      × (g'.ready ≡ true)
      × (g'.generation ≡ generation)
unfolding refresh_generation close_refresh mark_ready
refresh_generation-trust c a signalled g g' generation h = ground arith

refresh_identity-IsTrusted :
    (c : Config) (a : Answers) (signalled : Bool) (g g' : Guard) (answer : Result String String)
    → a.identity ≡ answer
    → refresh_identity c a signalled g answer ≡ (g', ok tt)
    → IsTrusted a g g'
unfolding refresh_identity
refresh_identity-IsTrusted c a signalled g g' (err why) e h = ground arith
refresh_identity-IsTrusted c a signalled g g' (ok identity) e h =
    elim (Bool-cases (is_empty (trim_space identity))) [
      | inl blank ↦ ground arith
      | inr named ↦
          let k =
            refresh_generation-trust c a signalled g g' (trim_space identity) (ground arith) in
          record {
            identity = identity;
            answered = e;
            ready = k.2;
            generation = k.3;
            not_empty = named;
            unsuspected = k.0;
            confirmed =
                decide_answer-trust c g a (trim_space identity) a.verified refl
                  (unfold read_and_decide in k.1);
          }
    ]

-- For every configuration, answers, guards g and g', with or without a signal in between: if Refresh
-- succeeds on g and leaves g', then g' is ready for the generation that the primary named, which is not
-- empty and not the one that g suspected; and Redis held that generation's marker before the refresh, or
-- the verification passed, the primary named the generation again before and after the marker was
-- published, and the marker was read back.
pub refresh-IsTrusted :
    (c : Config) (a : Answers) (signalled : Bool) (g g' : Guard)
    → refresh c a signalled g ≡ (g', ok tt)
    → IsTrusted a g g'
unfolding refresh
refresh-IsTrusted c a signalled g g' h =
    refresh_identity-IsTrusted c a signalled g g' a.identity refl h
