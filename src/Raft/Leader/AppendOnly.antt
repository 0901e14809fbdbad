-- ===== src/Raft/Leader/AppendOnly.antt =====
-- The log under leader.rs.
use basisdb.Base.{
  ◌≡◌, refl, sym, ap, ◌∙◌, List, [], ◌∷◌, ◌++◌, Bool, ltb, add64, if_rule, option_rule,
}
use mathlib.Core.Path.{subst}
use mathlib.Core.List.{append_assoc, append-nil}
use basisdb.Raft.Membership.{ConfigChange}
use basisdb.Raft.Log.{EntryPayload, Term, last_index, Entry, Log, Command, append}
use basisdb.Raft.Event.{Event}
use basisdb.Raft.Core.{Core, term_of, log_of, maybe_update_term}
use basisdb.Raft.Leader.{
  find_down, is_committable, Leader, advance_commit_index, step, propose, propose_config_change,
}
use basisdb.Raft.Leader.StepRule.{
  own_entry, step_rule, propose_rule, propose_config_change_rule, with_own_entry,
}

-- A log and what one with more entries at its end has.
pub record Extends (log next : Log) : Type 0 where
  pub added : List Entry
  pub grown : next.entries ≡ log.entries ++ added
  pub same_index : next.snapshot_index ≡ log.snapshot_index
  pub same_term : next.snapshot_term ≡ log.snapshot_term

Extends-refl : (log : Log) → Extends log log
Extends-refl log = record {
  added = [];
  grown = sym (append-nil log.entries);
  same_index = refl;
  same_term = refl;
}

pub advance_commit_index-log :
    (l : Leader) (c : Core) → log_of (advance_commit_index l c) ≡ log_of c
unfolding advance_commit_index
advance_commit_index-log l c =
    option_rule (λ d. log_of d ≡ log_of c)
      (find_down (is_committable l c) (add64 c.commit_index 1) (last_index (log_of c))) (λ _. refl)
      (λ i _. refl)

maybe_update_term-log : (c : Core) (t : Term) → log_of (maybe_update_term c t).0 ≡ log_of c
unfolding maybe_update_term
maybe_update_term-log c t =
    if_rule (λ (s : Core × Bool). log_of s.0 ≡ log_of c) (ltb (term_of c) t) (λ _. refl) (λ _. refl)

with_own_entry-Extends :
    (log : Log) (c : Core) (p : EntryPayload)
    → Extends log (log_of c)
    → Extends log (log_of (with_own_entry c p))
unfolding append
with_own_entry-Extends log c p h = record {
  added = h.added ++ own_entry c p ∷ [];
  grown =
      ap (λ es. es ++ own_entry c p ∷ []) h.grown
      ∙ append_assoc log.entries h.added (own_entry c p ∷ []);
  same_index = h.same_index;
  same_term = h.same_term;
}

-- Whatever event a leader takes, whatever command or configuration change it is proposed, its log
-- afterwards is the log before with entries, if any, added at its end, and the snapshot's index
-- and term are the same.
pub leader_append_only :
    (l : Leader) (c : Core)
    → ((e : Event) → Extends (log_of c) (log_of (step l c e).1))
      × ((cmd : Command) → Extends (log_of c) (log_of (propose l c cmd).1))
      × ((change : ConfigChange) → Extends (log_of c) (log_of (propose_config_change l c change).1))
leader_append_only l c =
    let grows = λ (d : Core). Extends (log_of c) (log_of d) in
    let advanced : (m : Leader) (d : Core) → grows d → grows (advance_commit_index m d) =
      λ m d h. subst (Extends (log_of c)) (sym (advance_commit_index-log m d)) h in
    let appended : (d : Core) (p : EntryPayload) → grows d → grows (with_own_entry d p) =
      λ d p h. with_own_entry-Extends (log_of c) d p h in
    let start = Extends-refl (log_of c) in
    (
      λ e.
          step_rule grows advanced appended (λ d h. h)
            (λ d t h. subst (Extends (log_of c)) (sym (maybe_update_term-log d t)) h) l c e start,
      λ cmd. propose_rule grows advanced appended l c cmd start,
      λ change. propose_config_change_rule grows advanced appended l c change start,
    )
