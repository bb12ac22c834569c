-- ===== src/Agent/Members.antt =====
-- The peers of a TCPAgent of tcp_peer.go and those of its consensus.
use Prim.Native.String.{String}
use text.Mathlib.Text.{◌==◌ as str_eq}
use text.Mathlib.TextEquality.{eq_iff}
use bdls.Base.{
  ℕ, ◌≡◌, refl, ap, sym, subst, ◌∙◌, List, [], ◌∷◌, ◌++◌, map, Bool, true, false, arith, if_cases,
  ◌==◌, ==→eq, any_of, Bool-cases, inl, inr,
}
use bdls.Consensus.State.{Consensus, Peer}
use bdls.Consensus.Peers.{join, leave, remove_peer}
use bdls.Agent.{TcpPeer}
use bdls.Agent.Handshake.{Session}
use bdls.Agent.Fixed.{SameAddr}
use bdls.Agent.Addresses.{
  among, without, Different, among-without, among-without_other, among-without_same,
  Different-without, among-append, Different-append,
}
use bdls.Agent.TcpAgent.{
  TcpAgent, as_peer, add_peer, remove_ref, forget, close_all, close_agent, present, settle_session,
}

-- Where the consensus sends, and where the agent has a connection.
abbrev pub addresses : List Peer → List String
addresses = map (λ (q : Peer). q.addr)

abbrev pub connections : (ℕ → TcpPeer) → List ℕ → List String
connections heap = map (λ (p : ℕ). (heap p).addr)

pub remove_peer-without :
    (addr : String) (ps : List Peer)
    → addresses (remove_peer addr ps).0 ≡ without addr (addresses ps)
unfolding remove_peer
remove_peer-without addr [] = refl
remove_peer-without addr (q ∷ ps) = elim (Bool-cases (str_eq addr q.addr)) [
  | inl same ↦ rw same refl
  | inr other ↦ rw other (ap (λ (l : List String). q.addr ∷ l) (remove_peer-without addr ps))
]

pub remove_ref-without :
    (heap : ℕ → TcpPeer) (addr : String) (ps : List ℕ)
    → (connections heap (remove_ref heap addr ps).0 ≡ without addr (connections heap ps))
      × ((remove_ref heap addr ps).1 ≡ among addr (connections heap ps))
unfolding remove_ref
remove_ref-without heap addr [] = (refl, refl)
remove_ref-without heap addr (p ∷ ps) =
    let (rest, found) = remove_ref-without heap addr ps in
    elim (Bool-cases (str_eq addr (heap p).addr)) [
      | inl same ↦ rw same (refl, refl)
      | inr other ↦ rw other (ap (λ (l : List String). (heap p).addr ∷ l) rest, found)
    ]

any_of-among :
    (addr : String) (ps : List Peer)
    → any_of (λ (q : Peer). str_eq addr q.addr) ps ≡ among addr (addresses ps)
any_of-among addr [] = refl
any_of-among addr (q ∷ ps) = rw (any_of-among addr ps) refl

addresses-append :
    (ps : List Peer) (q : Peer) → addresses (ps ++ q ∷ []) ≡ addresses ps ++ q.addr ∷ []
addresses-append [] q = refl
addresses-append (p ∷ ps) q = ap (λ (l : List String). p.addr ∷ l) (addresses-append ps q)

connections-append :
    (heap : ℕ → TcpPeer) (ps : List ℕ) (q : ℕ)
    → connections heap (ps ++ q ∷ []) ≡ connections heap ps ++ (heap q).addr ∷ []
connections-append heap [] q = refl
connections-append heap (p ∷ ps) q =
    ap (λ (l : List String). (heap p).addr ∷ l) (connections-append heap ps q)

present-addr : (a : TcpAgent) (refs : List ℕ) (q : Peer) → (present a refs q).addr ≡ q.addr
unfolding present as_peer
present-addr a [] q = refl
present-addr a (p ∷ ps) q = elim (Bool-cases (str_eq q.addr (a.heap p).addr)) [
  | inl same ↦ rw same (sym ((eq_iff q.addr (a.heap p).addr).0 same))
  | inr other ↦ rw other (present-addr a ps q)
]

pub addresses-present :
    (a : TcpAgent) (refs : List ℕ) (ps : List Peer)
    → addresses (map (present a refs) ps) ≡ addresses ps
addresses-present a refs [] = refl
addresses-present a refs (q ∷ ps) = λ i. present-addr a refs q i ∷ addresses-present a refs ps i

connections-agree :
    (h k : ℕ → TcpPeer) (ps : List ℕ)
    → ((p : ℕ) → (k p).addr ≡ (h p).addr)
    → connections k ps ≡ connections h ps
connections-agree h k [] e = refl
connections-agree h k (p ∷ ps) e = λ i. e p i ∷ connections-agree h k ps e i

-- The consensus knows an address once only, and none without a connection of the agent.
pub record Listed (known held : List String) : Type 0 where
  pub connected : (addr : String) → among addr known ≡ true → among addr held ≡ true
  pub different : Different known

abbrev pub ListedIn : TcpAgent → Type 0
ListedIn a = Listed (addresses a.consensus.peers) (connections a.heap a.peers)

Listed-without :
    (a : String) (known held : List String)
    → Listed known held
    → Listed (without a known) (without a held)
Listed-without a known held l = record {
  connected = λ b h. elim (Bool-cases (str_eq a b)) [
    | inl same ↦
        let gone =
          subst (λ (t : String). among t (without a known) ≡ false) ((eq_iff a b).0 same)
            (among-without_same a known l.different) in
        absurd (cc (h, gone))
    | inr other ↦ among-without_other a b held other (l.connected b (among-without a b known h))
  ];
  different = Different-without a known l.different;
}

Listed-append :
    (y : String) (known held : List String)
    → Listed known held
    → Listed known (held ++ y ∷ [])
      × (among y known ≡ false → Listed (known ++ y ∷ []) (held ++ y ∷ []))
Listed-append y known held l = (
  record {
    connected = λ b h. let old = l.connected b h in ground (arith, among-append b y held);
    different = l.different;
  },
  λ new. record {
    connected = λ b h. elim (Bool-cases (among b known)) [
      | inl there ↦ let old = l.connected b there in ground (arith, among-append b y held)
      | inr absent ↦ ground (arith, among-append b y held, among-append b y known)
    ];
    different = Different-append y known new l.different;
  },
)

pub add_peer-Listed : (a : TcpAgent) (p : ℕ) → ListedIn a → ListedIn (add_peer a p).0
unfolding add_peer join as_peer
add_peer-Listed a p l =
    let q = as_peer (a.heap p) in
    let held = connections a.heap a.peers in
    let (old, new) = Listed-append q.addr (addresses a.consensus.peers) held l in
    let longer = sym (connections-append a.heap a.peers p) in
    if_cases (λ (r : TcpAgent × Bool). ListedIn r.0) a.closed _ _ (λ _. l)
      (λ _.
        if_cases
          (λ (r : Consensus × Bool).
            Listed (addresses r.0.peers) (connections a.heap (a.peers ++ p ∷ [])))
          (any_of (λ (x : Peer). str_eq q.addr x.addr) a.consensus.peers) _ _
          (λ _. subst (Listed (addresses a.consensus.peers)) longer old)
          (λ free.
            subst (λ (known : List String). Listed known (connections a.heap (a.peers ++ p ∷ [])))
              (sym (addresses-append a.consensus.peers q))
              (subst (Listed (addresses a.consensus.peers ++ q.addr ∷ [])) longer
                (new (sym (any_of-among q.addr a.consensus.peers) ∙ free)))))

pub forget-Listed :
    (a : TcpAgent) (addr : String) (r : List ℕ × Bool)
    → ListedIn a
    → connections a.heap r.0 ≡ without addr (connections a.heap a.peers)
    → ListedIn (forget a addr r).0
unfolding leave
forget-Listed a addr (refs, false) l e = l
forget-Listed a addr (refs, true) l e =
    let known = addresses a.consensus.peers in
    let held = connections a.heap a.peers in
    subst (λ (k : List String). Listed k (connections a.heap refs))
      (sym (remove_peer-without addr a.consensus.peers))
      (subst (Listed (without addr known)) (sym e) (Listed-without addr known held l))

close_all-addr :
    (ps : List ℕ) (heap : ℕ → TcpPeer) (q : ℕ) → (close_all ps heap q).addr ≡ (heap q).addr
unfolding close_all
close_all-addr [] heap q = refl
close_all-addr (p ∷ ps) heap q =
    if_cases (λ (x : TcpPeer). x.addr ≡ (heap q).addr) (p == q) _ _ (λ _. close_all-addr ps heap q)
      (λ _. close_all-addr ps heap q)

pub close_agent-Listed : (a : TcpAgent) → ListedIn a → ListedIn (close_agent a)
unfolding close_agent
close_agent-Listed a l =
    if_cases ListedIn a.closed _ _ (λ _. l)
      (λ _.
        subst (Listed (addresses a.consensus.peers))
          (sym (
            connections-agree a.heap (close_all a.peers a.heap) a.peers
              (close_all-addr a.peers a.heap)))
          l)

pub settle-Listed :
    (a : TcpAgent) (p : ℕ) (c : Session)
    → SameAddr (a.heap p) c.peer
    → ListedIn a
    → ListedIn (settle_session a p c)
settle-Listed a p c e l =
    subst (Listed (addresses a.consensus.peers))
      (sym (
        connections-agree a.heap (settle_session a p c).heap a.peers (λ q.
          elim (Bool-cases (p == q)) [
            | inl same ↦ rw same (e ∙ ap (λ (r : ℕ). (a.heap r).addr) (==→eq p q same))
            | inr other ↦ rw other refl
          ])))
      l
