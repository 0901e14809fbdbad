-- ===== src/Raft/Node/Reach.antt =====
-- raft/mod.rs: the calls of a node's interface as a step relation.
use basisdb.Base.{
  All-get, get_elem?, true, sym, ◌∙◌, arith, ℕ, ◌+◌, ◌<◌, ◌≤◌, ◌≡◌, refl, some, Result, u64_mod,
}
use basisdb.Raft.NodeSet.{NodeId}
use basisdb.Raft.Membership.{ConfigChange}
use basisdb.Raft.Log.{LogIndex, Command}
use basisdb.Raft.Event.{Event, Effects, Message}
use basisdb.Raft.Event.Grants.{grants}
use basisdb.Raft.Core.{term_of}
use basisdb.Raft.Core.Advances.{
  Advances, SameVote-Advances, Advances-refl, Advances-trans, voted_for,
}
use basisdb.Raft.Node.{
  Node, step_role, step_event, propose, ProposeError, propose_config_change, request_read_index,
  advance,
}
use basisdb.Raft.Node.Grants.{step_event-Recorded}
use basisdb.Raft.Node.Advances.{
  step_event-Advances, propose-Advances, propose_config_change-Advances,
  request_read_index-Advances,
}

-- One call of the node's interface: an event (a tick, a message, the end of a disk write), a
-- proposal that returns, a configuration change, a read or an acknowledgement. An event stands
-- under the condition that the role's step leaves a term below the last `u64`.
pub data Call (n : Node) : Node → Type 0 where
  event :
      (e : Event) → term_of (step_role n.role n.core e).1 + 1 < u64_mod → Call n (step_event n e).0
  proposal :
      (cmd : Command) {m : Node} {r : Result (LogIndex × Effects) ProposeError}
      → propose n cmd ≡ some (m, r)
      → Call n m
  config_change : (change : ConfigChange) → Call n (propose_config_change n change).0
  read : Call n (request_read_index n).0
  acknowledgement : (applied_to : LogIndex) → Call n (advance n applied_to)

pub data Calls (n : Node) : Node → Type 0 where
  here : Calls n n
  next : {m k : Node} → Calls n m → Call m k → Calls n k

Call-Advances : {n m : Node} → Call n m → Advances n.core m.core
unfolding advance
Call-Advances {n} (event e h) = step_event-Advances n e h
Call-Advances {n} (proposal cmd h) = propose-Advances n cmd h
Call-Advances {n} (config_change change) = propose_config_change-Advances n change
Call-Advances {n} read = request_read_index-Advances n
Call-Advances {n} (acknowledgement i) =
    SameVote-Advances (record { same_term = refl; same_vote = refl })

pub Calls-Advances : {n m : Node} → Calls n m → Advances n.core m.core
Calls-Advances {n} here = Advances-refl n.core
Calls-Advances (next calls call) = Advances-trans (Calls-Advances calls) (Call-Advances call)

-- Along any calls of a node's interface, whatever messages arrive, the term never falls, where
-- the role's step of each event leaves a term below the last u64.
pub term_monotone : {n m : Node} → Calls n m → term_of n.core ≤ term_of m.core
term_monotone calls = (Calls-Advances calls).term_le

-- Along any calls of a node's interface after which the term is the same, the vote that the node
-- held stands, where the role's step of each event leaves a term below the last u64.
pub one_vote_per_term :
    {n m : Node} (v : NodeId)
    → Calls n m
    → term_of m.core ≡ term_of n.core
    → voted_for n.core ≡ some v
    → voted_for m.core ≡ some v
one_vote_per_term v calls = (Calls-Advances calls).vote_kept v

-- Any two votes that a node grants for the same term, in two events with any calls of the node's
-- interface between them, go to the same candidate, where the role's step of each event, but for
-- the first, leaves a term below the last u64.
pub grants_agree :
    (n k : Node) (e e' : Event) (i i' : ℕ) (m m' : Message)
    → Calls (step_event n e).0 k
    → term_of (step_role k.role k.core e').1 + 1 < u64_mod
    → get_elem? (step_event n e).1.messages i ≡ some m
    → get_elem? (step_event k e').1.messages i' ≡ some m'
    → grants m.payload ≡ true
    → grants m'.payload ≡ true
    → m.term ≡ m'.term
    → m.receiver ≡ m'.receiver
grants_agree n k e e' i i' m m' calls h sent sent' grant grant' same =
    let r = All-get _ (step_event n e).1.messages i m (step_event-Recorded n e) sent grant in
    let r' = All-get _ (step_event k e').1.messages i' m' (step_event-Recorded k e') sent' grant' in
    let kept =
      one_vote_per_term m.receiver (next calls (event e' h)) (omega (arith, r.1, r'.1)) r.0 in
    let eq : some m.receiver ≡ some m'.receiver = sym kept ∙ r'.0 in ground (arith, eq)
