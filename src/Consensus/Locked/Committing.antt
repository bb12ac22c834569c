-- ===== src/Consensus/Locked/Committing.antt =====
-- sendCommit of consensus.go.
use bdls.Base.{
  ℕ, ◌≡◌, ◌≢◌, refl, ap, subst, ◌∙◌, ◌⊎◌, inl, inr, [], ◌∷◌, ◌++◌, true, false, arith, ◌==◌, ==→eq,
  eq_self, if◌then◌else◌, if_cases, Bool-cases, ok, ok-injective, >>=-eq-ok,
}
use bdls.Message.{Message}
use bdls.Message.Signing.{sign}
use bdls.Round.{Round}
use bdls.Consensus.State.{Consensus, Setup, callback, current}
use bdls.Consensus.Rounds.{round_leader}
use bdls.Consensus.Send.{
  broadcast, send_to, seal, to_all, to_leader, commit_message, deliver_commit, send_commit,
  mark_committed,
}

module _ (s : Setup) where
  -- A <commit> message for a <lock> message goes out: to all peers and to oneself, or where commits
  -- are unicast to the leader of its round alone, who may be the participant itself.
  abbrev pub Delivered : Consensus → Message → Consensus → Type 0
  Delivered c m d =
      let content = commit_message s m in
      let sent = sign s.lib c.rand content s.private_key in
      let out = s.lib.marshal_signed sent in
      let noted = if s.has_callback then c.outputs ++ callback content sent ∷ [] else c.outputs in
      ((s.enable_commit_unicast ≡ false)
        × (d.outputs ≡ noted ++ to_all c.peers out)
        × (d.loopback ≡ c.loopback ++ out ∷ []))
      ⊎ ((s.enable_commit_unicast ≡ true)
          × ((leader : ℕ) × (round_leader s m.round ≡ ok leader)
              × (((leader ≡ s.identity)
                    × (d.outputs ≡ noted)
                    × (d.loopback ≡ c.loopback ++ out ∷ []))
                  ⊎ ((leader ≢ s.identity)
                      × (d.outputs ≡ noted ++ to_leader s leader out c.peers)
                      × (d.loopback ≡ c.loopback)))))

  -- The message goes out and nothing else changes that matters here.
  abbrev Sends : Consensus → Message → Consensus → Type 0
  Sends c m d =
      Delivered c m d
      × (d.heap ≡ c.heap)
      × (d.current_round ≡ c.current_round)
      × (d.locks ≡ c.locks)
      × (d.commit_timeout ≡ c.commit_timeout)

  deliver_commit-Sends :
      (c : Consensus) (m : Message) (d : Consensus)
      → deliver_commit s c (commit_message s m) ≡ ok d
      → Sends c m d
  unfolding deliver_commit broadcast send_to seal round_leader
  deliver_commit-Sends c m d h = elim (Bool-cases s.enable_commit_unicast) [
    | inl unicast ↦
        let (leader, found, e) =
          >>=-eq-ok (round_leader s m.round)
            (λ leader. ok (send_to s c (commit_message s m) leader)) (rw unicast at h) in
        subst (Sends c m) (ok-injective e) (
          if_cases (Sends c m) (leader == s.identity) _ _
            (λ self. (
              inr (unicast, (leader, found, inl (==→eq _ _ self, refl, refl))),
              refl,
              refl,
              refl,
              refl,
            ))
            (λ other. (
              inr (
                unicast,
                (leader, found, inr (λ e. absurd (ground (arith, other, e)), refl, refl)),
              ),
              refl,
              refl,
              refl,
              refl,
            )))
    | inr everyone ↦
        let e : ok (broadcast s c (commit_message s m)).0 ≡ ok d = rw everyone at h in
        subst (Sends c m) (ok-injective e) (inl (everyone, refl, refl), refl, refl, refl, refl)
  ]

  -- How the participant stands after a <commit> message, if it was still to be sent, is out.
  pub record Marked (c : Consensus) (m : Message) (d : Consensus) : Type 0 where
    pub marked : (current d).commit_sent ≡ true
    pub same_number : (current d).round_number ≡ (current c).round_number
    pub same_stage : (current d).stage ≡ (current c).stage
    pub same_locks : d.locks ≡ c.locks
    pub same_timeout : d.commit_timeout ≡ c.commit_timeout
    pub said :
        (((current c).commit_sent ≡ true) × (d.outputs ≡ c.outputs) × (d.loopback ≡ c.loopback))
        ⊎ (((current c).commit_sent ≡ false) × Delivered c m d)

  mark_committed-Marked :
      (c : Consensus) (m : Message) (c1 : Consensus)
      → Sends c m c1
      → (current c).commit_sent ≡ false
      → Marked c m (mark_committed s c1)
  mark_committed-Marked c m c1 (sent, heap, ref, locks, timeout) fresh =
      let here : current c1 ≡ current c =
        ap (λ (h : ℕ → Round). h c1.current_round) heap ∙ ap c.heap ref in
      record {
        marked = rw (eq_self c1.current_round) refl;
        same_number = rw (eq_self c1.current_round) (ap (λ (r : Round). r.round_number) here);
        same_stage = rw (eq_self c1.current_round) (ap (λ (r : Round). r.stage) here);
        same_locks = locks;
        same_timeout = timeout;
        said = inr (fresh, sent);
      }

  pub send_commit-Marked :
      (c : Consensus) (m : Message) (d : Consensus) → send_commit s c m ≡ ok d → Marked c m d
  unfolding send_commit
  send_commit-Marked c m d h = elim (Bool-cases (current c).commit_sent) [
    | inl already ↦
        let same : c ≡ d = ok-injective (rw already at h) in
        subst (Marked c m) same (record {
          marked = already;
          same_number = refl;
          same_stage = refl;
          same_locks = refl;
          same_timeout = refl;
          said = inl (already, refl, refl);
        })
    | inr fresh ↦
        let (c1, delivered, e) =
          >>=-eq-ok (deliver_commit s c (commit_message s m)) _ (rw fresh at h) in
        subst (Marked c m) (ok-injective e)
          (mark_committed-Marked c m c1 (deliver_commit-Sends c m c1 delivered) fresh)
  ]
