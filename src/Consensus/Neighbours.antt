-- ===== src/Consensus/Neighbours.antt =====
-- The peers of the object of consensus.go: which calls leave them alone.
pub mod Handling
pub mod Ticking
use bdls.Base.{
  ℕ, zero, suc, ◌≡◌, refl, sym, ap, ◌∙◌, List, [], ◌∷◌, Option, none, some, Bool, true, false, not,
  ltb, leb, ◌==◌, ◌&&◌, ◌||◌, any_of, length, if◌then◌else◌, Outcome, ok, err, panic, require,
  Ensures, Ensures-eq, Ensures-map, >>=-Ensures, if_cases,
}
use mathlib.Core.Option.{some-injective}
use bdls.Message.{Bytes, State, Message, MessageType, SignedProto, protocol_version}
use bdls.Round.{
  Stage, Tuple, rank, add_round_change, add_commit, num_round_changes, num_committed,
  round_change_states,
}
use bdls.Consensus.State.{Consensus, Setup, quorum, current, set_round}
use bdls.Consensus.Timing.{after, is_zero}
use bdls.Consensus.Rounds.{get_round, search_round, switch_round, round_leader, height_sync}
use bdls.Consensus.Proposals.{propose, propose_all}
use bdls.Consensus.Checks.{decoded, verify_message}
use bdls.Consensus.Verify.{
  verify_round_change, verify_lock, verify_lock_release, verify_select, verify_commit,
  verify_decide,
}
use bdls.Consensus.Send.{
  propagate, broadcast, send_to, broadcast_round_change, send_round_change, proposal, is_changing,
  broadcast_lock, broadcast_lock_release, broadcast_select, broadcast_decide, send_resync,
  broadcast_resync, deliver_commit, send_commit, commit_message,
}
use bdls.Consensus.Locks.{release_locks, lock_release}
use bdls.Consensus.Handlers.{
  scan_rounds, enter_lock, track_max, set_max, accept_round_change, on_round_change, follow_round,
  enter_selected, on_select, enter_locked, on_lock, release_lock, on_lock_release, decide,
  add_committed, on_commit, on_decide, on_resync,
}
use bdls.Consensus.Receive.{
  accepts, dispatch, receive, settle, drain_from, drain_one, drain, receive_message,
}
use bdls.Consensus.Update.{
  update_round_changing, lock_proposed, select_proposed, on_leader, update_lock, update_commit,
  update_lock_release, tick_in, tick, update,
}

-- The same peers.
abbrev pub SamePeers : Consensus → Consensus → Type 0
SamePeers c d = d.peers ≡ c.peers

pub switch_round-peers : (c : Consensus) (round : ℕ) → SamePeers c (switch_round c round)
unfolding switch_round get_round
switch_round-peers c round =
    if_cases (SamePeers c) (search_round c.heap c.next_ref round true c.rounds).is_new _ _
      (λ _. refl) (λ _. refl)

pub get_round-peers :
    (c : Consensus) (round : ℕ) (purge : Bool) → SamePeers c (get_round c round purge).0
unfolding get_round
get_round-peers c round purge =
    if_cases (SamePeers c) (search_round c.heap c.next_ref round purge c.rounds).is_new _ _
      (λ _. refl) (λ _. refl)

pub height_sync-peers :
    (c : Consensus) (height round : ℕ) (st : State) → SamePeers c (height_sync c height round st)
unfolding height_sync
height_sync-peers c height round st = switch_round-peers _ 0

module _ (s : Setup) where
  pub round_change-peers : (c : Consensus) → SamePeers c (broadcast_round_change s c)
  unfolding broadcast_round_change broadcast
  round_change-peers c =
      if_cases (SamePeers c) ((current c).round_change_sent && not (is_changing (current c).stage))
        _ _ (λ _. refl) (λ _. sent (proposal s c))
    where
      sent : (st : State) → SamePeers c (send_round_change s c st)
      sent none = refl
      sent (some b) = refl

  pub resync-peers : (c : Consensus) → SamePeers c (broadcast_resync s c)
  unfolding broadcast_resync broadcast
  resync-peers c = sent c.last_round_change_proof
    where
      sent : (proof : Option (List SignedProto)) → SamePeers c (send_resync s c proof)
      sent none = refl
      sent (some proof) = refl

  pub lock_release-peers : (c : Consensus) → SamePeers c (lock_release s c)
  unfolding lock_release broadcast_lock_release broadcast
  lock_release-peers c = released c.locks
    where
      released : (locks : List Tuple) → SamePeers c (release_locks s c locks)
      released [] = refl
      released (t ∷ ts) = refl

  pub propose-peers : (c : Consensus) (st : State) → SamePeers c (propose s c st)
  unfolding propose
  propose-peers c none = refl
  propose-peers c (some b) =
      if_cases (SamePeers c) (any_of (λ u. s.state_hash u == s.state_hash (some b)) c.unconfirmed) _
        _ (λ _. refl) (λ _. refl)

  pub propose_all-peers : (c : Consensus) (sts : List State) → SamePeers c (propose_all s c sts)
  unfolding propose_all
  propose_all-peers c [] = refl
  propose_all-peers c (st ∷ sts) = propose_all-peers (propose s c st) sts ∙ propose-peers c st

  send_to-peers : (c : Consensus) (m : Message) (leader : ℕ) → SamePeers c (send_to s c m leader)
  unfolding send_to
  send_to-peers c m leader =
      if_cases (SamePeers c) (leader == s.identity) _ _ (λ _. refl) (λ _. refl)

  deliver_commit-peers :
      (c : Consensus) (m : Message) → Ensures (SamePeers c) (deliver_commit s c m)
  unfolding deliver_commit broadcast
  deliver_commit-peers c m =
      if_cases (Ensures (SamePeers c)) s.enable_commit_unicast _ _
        (λ _.
          >>=-Ensures (SamePeers c) (round_leader s m.round) _
            (λ leader _. send_to-peers c m leader))
        (λ _. refl)

  pub send_commit-peers : (c : Consensus) (m : Message) → Ensures (SamePeers c) (send_commit s c m)
  unfolding send_commit
  send_commit-peers c m =
      if_cases (Ensures (SamePeers c)) (current c).commit_sent _ _ (λ _. refl)
        (λ _.
          >>=-Ensures (SamePeers c) (deliver_commit s c (commit_message s m)) _
            (λ c1 e. Ensures-eq (SamePeers c) _ (deliver_commit-peers c _) e))
