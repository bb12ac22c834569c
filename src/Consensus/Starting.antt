-- ===== src/Consensus/Starting.antt =====
-- The participant that NewConsensus of consensus.go makes, and the configurations that it takes.
use bdls.Base.{
  ℕ, List, ◌∷◌, Bool, true, false, ◌||◌, sym, ◌∙◌, has, Distinct, ◌*◌, ◌≤◌, ◌≡◌, ◌≢◌, ◌↔◌, refl,
  subst, [], none, some, arith, ok, ok-injective, >>=-eq-ok, length,
}
use bdls.Base.Assoc.{insert, keys, has-insert, Distinct-insert, length-keys}
use bdls.Message.Signing.{Primitives}
use bdls.Round.{Stage, new_round}
use bdls.Consensus.State.{Consensus, Setup, set_stage}
use bdls.Consensus.Config.{
  Config, Functions, verify_config, setup_of, init, new_consensus, identities, blank,
}
use bdls.Consensus.Timing.{
  time_add, default_consensus_latency, round_change_duration, scaled, cap, shift_one,
}
use bdls.Consensus.Rounds.{switch_round, get_round, search_round}
use bdls.Consensus.Synced.{Fresh, broadcast_round_change-idle}

-- A configuration is accepted if the epoch is set, both functions and the key are there, and at least
-- four participants are listed, and only then.
pub verify_config-ok :
    (c : Config) (f : Functions)
    → (verify_config c ≡ ok f) ↔ (
        (c.epoch ≢ 0)
        × (c.state_compare ≡ some f.compare)
        × (c.state_validate ≡ some f.validate)
        × (c.key ≡ some f.key)
        × (4 ≤ length c.participants))
unfolding verify_config
verify_config-ok c f = (λ h. ground arith, λ h. ground arith)

-- `init` starts a height with nothing to send.
init-Fresh :
    (s : Setup) (config : Config)
    → let c = init s config in
      Fresh c config.current_height 0 none
      × (c.outputs ≡ [])
      × (c.loopback ≡ [])
      × (c.peers ≡ [])
      × (c.rc_timeout ≡ time_add config.epoch (2 * default_consensus_latency))
unfolding init blank switch_round get_round search_round new_round round_change_duration scaled cap
    shift_one
init-Fresh s config =
    let idle =
      broadcast_round_change-idle s
        (set_stage (switch_round (blank config.current_height) 0) Stage.round_changing) refl refl in
    rw idle (
      record {
        height_set = refl;
        round_set = refl;
        state_set = refl;
        only_round = refl;
        new = refl;
        no_locks = refl;
        no_proposals = refl;
        no_proof = refl;
      },
      refl,
      refl,
      refl,
      refl,
    )

identities-Distinct :
    (ps : List ℕ) (acc : List (ℕ × Bool))
    → Distinct (keys acc)
    → Distinct (keys (identities ps acc))
unfolding identities
identities-Distinct [] acc d = d
identities-Distinct (p ∷ ps) acc d =
    identities-Distinct ps (insert p true acc) (Distinct-insert p true acc d)

has-identities_or :
    (a : ℕ) (ps : List ℕ) (acc : List (ℕ × Bool))
    → has a (keys (identities ps acc)) ≡ (has a ps || has a (keys acc))
unfolding identities
has-identities_or a [] acc = refl
has-identities_or a (p ∷ ps) acc =
    ground (arith, has-identities_or a ps (insert p true acc), has-insert a p true acc)

or_false : (b : Bool) → (b || false) ≡ b
or_false b = ground arith

-- A participant that has just been made from a configuration.
pub record Started (config : Config) (made : Setup × Consensus) : Type 0 where
  pub enough : 4 ≤ length config.participants
  pub same_participants : made.0.participants ≡ config.participants
  pub different : List ℕ
  pub all_different : Distinct different
  pub same_members : (id : ℕ) → has id different ≡ has id config.participants
  pub counted : made.0.num_identities ≡ length different
  pub fresh : Fresh made.1 config.current_height 0 none
  pub nothing_sent : made.1.outputs ≡ []
  pub nothing_queued : made.1.loopback ≡ []
  pub no_peers : made.1.peers ≡ []
  pub timeout : made.1.rc_timeout ≡ time_add config.epoch (2 * default_consensus_latency)

-- What `NewConsensus` gives has at least four participants listed, and its count is that of the
-- different ones among them. It stands at the start of the height after the configured one, in round
-- 0, with no peers and nothing sent or queued, and its timeout is twice the default latency after the
-- epoch.
pub new_consensus-Started :
    (lib : Primitives) (config : Config) (made : Setup × Consensus)
    → new_consensus lib config ≡ ok made
    → Started config made
unfolding new_consensus setup_of
new_consensus-Started lib config made h =
    let (f, accepted, e) = >>=-eq-ok (verify_config config) _ h in
    let (fresh, outputs, loopback, peers, timeout) = init-Fresh (setup_of lib config f) config in
    subst (Started config) (ok-injective e) (record {
      enough = ((verify_config-ok config f).0 accepted).4;
      same_participants = refl;
      different = keys (identities config.participants []);
      all_different = identities-Distinct config.participants [] tt;
      same_members =
          λ id. has-identities_or id config.participants [] ∙ or_false (has id config.participants);
      counted = sym (length-keys (identities config.participants []));
      fresh = fresh;
      nothing_sent = outputs;
      nothing_queued = loopback;
      no_peers = peers;
      timeout = timeout;
    })
