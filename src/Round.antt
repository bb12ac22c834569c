-- ===== src/Round.antt =====
-- consensusRound of consensus.go: the messages that a round exchanges.
pub mod Sorted
pub mod Proposed
use bdls.Base.{
  ℕ, suc, ◌-◌, List, [], ◌∷◌, ◌++◌, map, Option, none, some, Bool, true, false, ◌&&◌, Outcome, ok,
  panic, ltb, ◌==◌, if◌then◌else◌, length, get_elem?, set, take, keep_if, any_of, count_if, is_some,
}
use bdls.Message.{State, Message, SignedProto}

-- `consensusStage`: "stages are strictly ordered".
pub data Stage : Type 0 where
  round_changing lock commit lock_release : Stage

abbrev pub rank : Stage → ℕ
rank Stage.round_changing = 0
rank Stage.lock = 1
rank Stage.commit = 2
rank Stage.lock_release = 3

-- `messageTuple`.
pub record Tuple : Type 0 where
  pub state_hash : ℕ
  pub message : Message
  pub signed : SignedProto

pub record Round : Type 0 where
  pub stage : Stage
  pub round_number : ℕ  -- uint64
  pub locked_state : State
  pub locked_state_hash : ℕ
  pub round_change_sent : Bool
  pub commit_sent : Bool
  pub round_changes : List Tuple
  pub commits : List Tuple
  pub max_proposed_state : State
  pub max_proposed_count : ℕ

-- `newConsensusRound`; `LockedStateHash` starts as the zero array.
unfoldable pub new_round : ℕ → Round
new_round n = record {
  stage = Stage.round_changing;
  round_number = n;
  locked_state = none;
  locked_state_hash = 0;
  round_change_sent = false;
  commit_sent = false;
  round_changes = [];
  commits = [];
  max_proposed_state = none;
  max_proposed_count = 0;
}

abbrev pub same_signer : ℕ → ℕ → Tuple → Bool
same_signer x y t = t.signed.x == x && t.signed.y == y

-- `AddRoundChange`, with its verdict.
unfoldable pub add_round_change : (State → ℕ) → Round → SignedProto → Message → Round × Bool
add_round_change state_hash r sp m =
    let t : Tuple = record { state_hash = state_hash m.state; message = m; signed = sp } in
    if any_of (same_signer sp.x sp.y) r.round_changes
    then (r, false)
    else (record r { round_changes = r.round_changes ++ t ∷ [] }, true)

-- The index of the first tuple of a signer.
abbrev pub find_signer : ℕ → ℕ → List Tuple → Option ℕ
find_signer x y [] = none
find_signer x y (t ∷ ts) =
    let rest = find_signer x y ts in
    if same_signer x y t then some 0 else elim rest [ none ↦ none | some k ↦ some (suc k) ]

-- `FindRoundChange`; -1 is `none`.
unfoldable pub find_round_change : Round → ℕ → ℕ → Option ℕ
find_round_change r x y = find_signer x y r.round_changes

-- Swap the entry at `idx` with the last one and cut the last one off.
unfoldable pub swap_remove : List Tuple → ℕ → Option (List Tuple)
swap_remove ts idx =
    let n = length ts - 1 in
    elim (get_elem? ts n) [
      | none ↦ none
      | some final ↦ if ltb idx (length ts) then some (take n (set ts idx final)) else none
    ]

-- `RemoveRoundChange`; an index out of range panics.
unfoldable pub remove_round_change : Round → ℕ → Outcome Round
remove_round_change r idx = elim (swap_remove r.round_changes idx) [
  | none ↦ panic
  | some ts ↦ ok (record r { round_changes = ts })
]

-- `NumRoundChanges`.
abbrev pub num_round_changes : Round → ℕ
num_round_changes r = length r.round_changes

-- `SignedRoundChanges`.
unfoldable pub signed_round_changes : Round → List SignedProto
signed_round_changes r = map (λ (t : Tuple). t.signed) r.round_changes

-- `RoundChangeStates`: the states that are not nil.
unfoldable pub round_change_states : Round → List State
round_change_states r =
    keep_if (λ s. is_some s) (map (λ (t : Tuple). t.message.state) r.round_changes)

-- `AddCommit`, with its verdict.
unfoldable pub add_commit : (State → ℕ) → Round → SignedProto → Message → Round × Bool
add_commit state_hash r sp m =
    let t : Tuple = record { state_hash = state_hash m.state; message = m; signed = sp } in
    if any_of (same_signer sp.x sp.y) r.commits
    then (r, false)
    else (record r { commits = r.commits ++ t ∷ [] }, true)

-- How many tuples have a hash.
abbrev pub hash_count : ℕ → List Tuple → ℕ
hash_count h = count_if (λ (t : Tuple). t.state_hash == h)

-- `NumCommitted`.
unfoldable pub num_committed : Round → ℕ
num_committed r = count_if (λ (t : Tuple). t.state_hash == r.locked_state_hash) r.commits

-- `SignedCommits`.
unfoldable pub signed_commits : Round → List SignedProto
signed_commits r = map (λ (t : Tuple). t.signed) r.commits

-- `sort.Sort` by hash: of the orders that it may leave equal hashes in, this one keeps theirs.
unfoldable pub insert_by_hash : Tuple → List Tuple → List Tuple
insert_by_hash t [] = t ∷ []
insert_by_hash t (u ∷ us) =
    let rest = insert_by_hash t us in if ltb u.state_hash t.state_hash then u ∷ rest else t ∷ u ∷ us

unfoldable pub sort_by_hash : List Tuple → List Tuple
unfolding insert_by_hash
sort_by_hash [] = []
sort_by_hash (t ∷ ts) = insert_by_hash t (sort_by_hash ts)

-- The loop that looks for the longest run of one hash; `prev` is the tuple before the rest.
unfoldable pub longest_run : Tuple → ℕ → ℕ → Tuple → List Tuple → Tuple × ℕ
longest_run max_state max_count cur_count prev [] =
    if ltb max_count cur_count then (prev, cur_count) else (max_state, max_count)
longest_run max_state max_count cur_count prev (t ∷ ts) =
    let improved = ltb max_count cur_count in
    let same = t.state_hash == prev.state_hash in
    longest_run (if same then max_state else if improved then prev else max_state)
      (if same then max_count else if improved then cur_count else max_count)
      (if same then suc cur_count else 1) t ts

-- The round with its messages sorted, the state and the count, given the sorted messages.
unfoldable pub max_of_sorted : Round → List Tuple → Round × State × ℕ
unfolding longest_run
max_of_sorted r [] = (r, none, 0)
max_of_sorted r (t ∷ ts) =
    let (best, count) = longest_run t 1 1 t ts in
    (record r { round_changes = t ∷ ts }, best.message.state, count)

-- `GetMaxProposed`, with the round that it leaves behind.
unfoldable pub get_max_proposed : Round → Round × State × ℕ
unfolding sort_by_hash max_of_sorted
get_max_proposed r = max_of_sorted r (sort_by_hash r.round_changes)
