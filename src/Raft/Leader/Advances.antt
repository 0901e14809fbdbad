-- ===== src/Raft/Leader/Advances.antt =====
-- The term and the vote under leader.rs.
use basisdb.Base.{refl, ◌∙◌, arith}
use basisdb.Raft.Membership.{ConfigChange}
use basisdb.Raft.Log.{Command}
use basisdb.Raft.Event.{Event}
use basisdb.Raft.Core.{Core}
use basisdb.Raft.Core.Advances.{
  Advances, Advances-refl, Advances-trans, SameVote, SameVote-Advances, maybe_update_term-Advances,
}
use basisdb.Raft.Leader.{Leader, advance_commit_index, step, propose, propose_config_change}
use basisdb.Raft.Leader.StepRule.{step_rule, propose_rule, propose_config_change_rule}

SameVote-refl : (c : Core) → SameVote c c
SameVote-refl c = record { same_term = refl; same_vote = refl }

SameVote-trans : {c d e : Core} → SameVote c d → SameVote d e → SameVote c e
SameVote-trans s t = record {
  same_term = t.same_term ∙ s.same_term;
  same_vote = t.same_vote ∙ s.same_vote;
}

advance_commit_index-SameVote : (l : Leader) (c : Core) → SameVote c (advance_commit_index l c)
unfolding advance_commit_index
advance_commit_index-SameVote l c = record { same_term = ground arith; same_vote = ground arith }

pub step-Advances : (l : Leader) (c : Core) (e : Event) → Advances c (step l c e).1
step-Advances l c e =
    step_rule (Advances c)
      (λ m d a. Advances-trans a (SameVote-Advances (advance_commit_index-SameVote m d)))
      (λ d p a.
        Advances-trans a (SameVote-Advances (record { same_term = refl; same_vote = refl })))
      (λ d a. Advances-trans a (SameVote-Advances (record { same_term = refl; same_vote = refl })))
      (λ d t a. Advances-trans a (maybe_update_term-Advances d t)) l c e (Advances-refl c)

pub propose-SameVote : (l : Leader) (c : Core) (cmd : Command) → SameVote c (propose l c cmd).1
propose-SameVote l c cmd =
    propose_rule (SameVote c) (λ m d s. SameVote-trans s (advance_commit_index-SameVote m d))
      (λ d p s. SameVote-trans s (record { same_term = refl; same_vote = refl })) l c cmd
      (SameVote-refl c)

pub propose_config_change-SameVote :
    (l : Leader) (c : Core) (change : ConfigChange)
    → SameVote c (propose_config_change l c change).1
propose_config_change-SameVote l c change =
    propose_config_change_rule (SameVote c)
      (λ m d s. SameVote-trans s (advance_commit_index-SameVote m d))
      (λ d p s. SameVote-trans s (record { same_term = refl; same_vote = refl })) l c change
      (SameVote-refl c)
