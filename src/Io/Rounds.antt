-- ===== src/Io/Rounds.antt =====
-- read_index.rs: which nodes have acknowledged a round, over the calls of a coordinator.
use mathlib.Core.Path.{subst}
use basisdb.Base.{
  ℕ, ◌+◌, ◌*◌, ◌/◌, ◌≡◌, ◌≢◌, ◌<◌, ◌⊎◌, refl, sym, ap, inl, inr, true, false, not, ◌&&◌, List, [],
  ◌∷◌, ◌++◌, filter, length, leb, All, All-append, if_rule, arith, leb→le, ◌==◌, Bool-cases, map,
  add64,
}
use basisdb.Io.ReadIndex.{
  PendingRead, ReadIndexCoordinator, new_coordinator, contains, request_read, is_due,
  complete_reads, check_quorum, in_round, begin_heartbeat_round, record_ack, poll_completed, clear,
}

-- The calls that change a coordinator.
pub data ReadCall : Type 0 where
  request : ℕ → ReadCall
  begin : ReadCall
  ack : ℕ → ReadCall
  poll drop : ReadCall

unfoldable pub call_read : ReadIndexCoordinator → ReadCall → ReadIndexCoordinator
unfolding request_read begin_heartbeat_round record_ack clear
call_read c (request read_index) = (request_read c read_index).0
call_read c begin = begin_heartbeat_round c
call_read c (ack from) = record_ack c from
call_read c poll = (poll_completed c).0
call_read c drop = (clear c).0

unfoldable pub call_reads : ReadIndexCoordinator → List ReadCall → ReadIndexCoordinator
unfolding call_read
call_reads c [] = c
call_reads c (call ∷ calls) = call_reads (call_read c call) calls

-- The nodes that were heard of in the round that is going on: this node, which begins it, and those
-- whose acknowledgements were recorded after that.
abbrev pub hear : ℕ → List ℕ → ReadCall → List ℕ
hear me heard (request read_index) = heard
hear me heard begin = me ∷ []
hear me heard (ack from) = from ∷ heard
hear me heard poll = heard
hear me heard drop = []

abbrev pub hear_all : ℕ → List ℕ → List ReadCall → List ℕ
hear_all me heard [] = heard
hear_all me heard (call ∷ calls) = hear_all me (hear me heard call) calls

abbrev pub IsIn : ℕ → List ℕ → Type 0
IsIn n [] = ⊥
IsIn n (m ∷ ns) = (m ≡ n) ⊎ IsIn n ns

abbrev pub IsDistinct : List ℕ → Type 0
IsDistinct [] = Unit
IsDistinct (n ∷ ns) = All (λ m. n ≢ m) ns × IsDistinct ns

-- A voter that was heard of.
abbrev pub IsHeard : List ℕ → List ℕ → ℕ → Type 0
IsHeard voters heard n = IsIn n voters × IsIn n heard

-- Different voters, all heard of, who are more than half of the voters.
abbrev pub IsMajority : List ℕ → List ℕ → List ℕ → Type 0
IsMajority voters heard acks =
    IsDistinct acks × All (IsHeard voters heard) acks × (length voters < 2 * length acks)

abbrev pub IsRound : ℕ → List ℕ → List ℕ → ReadIndexCoordinator → Type 0
IsRound me voters heard c =
    (c.me ≡ me)
    × (c.voters ≡ voters)
    × IsDistinct c.round_acks
    × All (IsHeard voters heard) c.round_acks

contains-IsIn : (ns : List ℕ) (n : ℕ) → contains ns n ≡ true → IsIn n ns
unfolding contains
contains-IsIn [] n h = ground (arith, h)
contains-IsIn (m ∷ ns) n h = elim (Bool-cases (m == n)) [
  | inl e ↦ inl (ground (arith, e))
  | inr e ↦ inr (contains-IsIn ns n (ground (arith, h, e)))
]

contains-differs : (ns : List ℕ) (n : ℕ) → contains ns n ≡ false → All (λ m. m ≢ n) ns
unfolding contains
contains-differs [] n h = tt
contains-differs (m ∷ ns) n h =
    (λ e. ground (arith, h, e), contains-differs ns n (ground (arith, h)))

IsDistinct-append :
    (ns : List ℕ) (n : ℕ) → IsDistinct ns → All (λ m. m ≢ n) ns → IsDistinct (ns ++ n ∷ [])
IsDistinct-append [] n d h = (tt, tt)
IsDistinct-append (m ∷ ns) n d h =
    (All-append (λ k. m ≢ k) ns (n ∷ []) d.0 (h.0, tt), IsDistinct-append ns n d.1 h.1)

All-IsHeard :
    (voters heard acks : List ℕ) (n : ℕ)
    → All (IsHeard voters heard) acks
    → All (IsHeard voters (n ∷ heard)) acks
All-IsHeard voters heard [] n h = tt
All-IsHeard voters heard (m ∷ acks) n h = ((h.0.0, inr h.0.1), All-IsHeard voters heard acks n h.1)

complete_reads-IsRound :
    (me : ℕ) (voters heard : List ℕ) (entries : List (ℕ × PendingRead)) (c : ReadIndexCoordinator)
    → IsRound me voters heard c
    → IsRound me voters heard (complete_reads entries c)
unfolding complete_reads
complete_reads-IsRound me voters heard [] c h = h
complete_reads-IsRound me voters heard (entry ∷ entries) c h =
    complete_reads-IsRound me voters heard entries _ h

complete_reads-acks :
    (entries : List (ℕ × PendingRead)) (c : ReadIndexCoordinator)
    → (complete_reads entries c).round_acks ≡ c.round_acks
unfolding complete_reads
complete_reads-acks [] c = refl
complete_reads-acks (entry ∷ entries) c = complete_reads-acks entries _

check_quorum-IsRound :
    (me : ℕ) (voters heard : List ℕ) (c : ReadIndexCoordinator)
    → IsRound me voters heard c
    → IsRound me voters heard (check_quorum c)
unfolding check_quorum
check_quorum-IsRound me voters heard c h =
    if_rule (IsRound me voters heard) (leb (length c.voters / 2 + 1) (length c.round_acks))
      (λ _. complete_reads-IsRound me voters heard (filter (is_due c.current_round) c.pending) c h)
      (λ _. h)

-- A check for a quorum answers a read only to a majority.
check_quorum-IsMajority :
    (me : ℕ) (voters heard : List ℕ) (c : ReadIndexCoordinator)
    → IsRound me voters heard c
    → ((check_quorum c).completed ≡ c.completed)
      ⊎ IsMajority voters heard (check_quorum c).round_acks
unfolding check_quorum
check_quorum-IsMajority me voters heard c h =
    let P : ReadIndexCoordinator → Type 0 =
      λ x. (x.completed ≡ c.completed) ⊎ IsMajority voters heard x.round_acks in
    if_rule P (leb (length c.voters / 2 + 1) (length c.round_acks))
      (λ e.
        let enough = leb→le _ _ e in
        inr (
          subst (IsMajority voters heard)
            (sym (complete_reads-acks (filter (is_due c.current_round) c.pending) c))
            (h.2, h.3, omega (arith, enough, ap length h.1))))
      (λ _. inl refl)

-- The coordinator that a call of `begin_heartbeat_round` or `record_ack` checks.
abbrev begun : ReadIndexCoordinator → ℕ → ReadIndexCoordinator
begun c round = record c {
  current_round = round;
  round_acks = c.me ∷ [];
  pending = map (in_round round) c.pending;
}

abbrev acked : ReadIndexCoordinator → ℕ → ReadIndexCoordinator
acked c from = record c { round_acks = c.round_acks ++ from ∷ [] }

begun-IsRound :
    (me : ℕ) (voters heard : List ℕ) (c : ReadIndexCoordinator) (round : ℕ)
    → IsIn me voters
    → IsRound me voters heard c
    → IsRound me voters (me ∷ []) (begun c round)
begun-IsRound me voters heard c round v h =
    (h.0, h.1, (tt, tt), ((subst (λ n. IsIn n voters) (sym h.0) v, inl (sym h.0)), tt))

acked-IsRound :
    (me : ℕ) (voters heard : List ℕ) (c : ReadIndexCoordinator) (from : ℕ)
    → contains c.round_acks from ≡ false
    → contains c.voters from ≡ true
    → IsRound me voters heard c
    → IsRound me voters (from ∷ heard) (acked c from)
acked-IsRound me voters heard c from new voter h = (
  h.0,
  h.1,
  IsDistinct-append c.round_acks from h.2 (contains-differs c.round_acks from new),
  All-append (IsHeard voters (from ∷ heard)) c.round_acks (from ∷ [])
      (All-IsHeard voters heard c.round_acks from h.3)
      ((subst (IsIn from) h.1 (contains-IsIn c.voters from voter), inl refl), tt),
)

call_read-IsRound :
    (me : ℕ) (voters heard : List ℕ) (c : ReadIndexCoordinator) (call : ReadCall)
    → IsIn me voters
    → IsRound me voters heard c
    → IsRound me voters (hear me heard call) (call_read c call)
unfolding call_read request_read begin_heartbeat_round record_ack clear
call_read-IsRound me voters heard c (request read_index) v h = h
call_read-IsRound me voters heard c begin v h =
    check_quorum-IsRound me voters (me ∷ []) (begun c (add64 c.current_round 1))
      (begun-IsRound me voters heard c (add64 c.current_round 1) v h)
call_read-IsRound me voters heard c (ack from) v h =
    if_rule (IsRound me voters (from ∷ heard))
      (not (contains c.round_acks from) && contains c.voters from)
      (λ e.
        check_quorum-IsRound me voters (from ∷ heard) (acked c from)
          (acked-IsRound me voters heard c from (ground (arith, e)) (ground (arith, e)) h))
      (λ _. (h.0, h.1, h.2, All-IsHeard voters heard c.round_acks from h.3))
call_read-IsRound me voters heard c poll v h = h
call_read-IsRound me voters heard c drop v h = (h.0, h.1, tt, tt)

call_reads-IsRound :
    (me : ℕ) (voters heard : List ℕ) (c : ReadIndexCoordinator) (calls : List ReadCall)
    → IsIn me voters
    → IsRound me voters heard c
    → IsRound me voters (hear_all me heard calls) (call_reads c calls)
unfolding call_reads
call_reads-IsRound me voters heard c [] v h = h
call_reads-IsRound me voters heard c (call ∷ calls) v h =
    call_reads-IsRound me voters (hear me heard call) (call_read c call) calls v
      (call_read-IsRound me voters heard c call v h)

skip : {A B C : Type 0} → A ⊎ B → A ⊎ C ⊎ B
skip (inl a) = inl a
skip (inr b) = inr (inr b)

call_read-IsMajority :
    (me : ℕ) (voters heard : List ℕ) (c : ReadIndexCoordinator) (call : ReadCall)
    → IsIn me voters
    → IsRound me voters heard c
    → ((call_read c call).completed ≡ c.completed)
      ⊎ (call ≡ poll)
      ⊎ IsMajority voters (hear me heard call) (call_read c call).round_acks
unfolding call_read request_read begin_heartbeat_round record_ack clear
call_read-IsMajority me voters heard c (request read_index) v h = inl refl
call_read-IsMajority me voters heard c begin v h = skip (
    check_quorum-IsMajority me voters (me ∷ []) (begun c (add64 c.current_round 1))
      (begun-IsRound me voters heard c (add64 c.current_round 1) v h))
call_read-IsMajority me voters heard c (ack from) v h =
    if_rule
      (λ (x : ReadIndexCoordinator).
        (x.completed ≡ c.completed)
        ⊎ (ack from ≡ poll)
        ⊎ IsMajority voters (from ∷ heard) x.round_acks)
      (not (contains c.round_acks from) && contains c.voters from)
      (λ e. skip (
        check_quorum-IsMajority me voters (from ∷ heard) (acked c from)
          (acked-IsRound me voters heard c from (ground (arith, e)) (ground (arith, e)) h)))
      (λ _. inl refl)
call_read-IsMajority me voters heard c poll v h = inr (inl refl)
call_read-IsMajority me voters heard c drop v h = inl refl

-- Where this node is one of the voters, after any calls of a new coordinator a further call
-- leaves the answered reads as they were, or is the poll that drains them, or the
-- acknowledgements of the round that is going on are then of different nodes, each a voter that
-- is this node or whose acknowledgement was recorded since the round began, and more than half of
-- the voters in number.
pub answers-IsMajority :
    (me : ℕ) (voters : List ℕ) (calls : List ReadCall) (call : ReadCall)
    → IsIn me voters
    → ((call_read (call_reads (new_coordinator me voters) calls) call).completed
        ≡ (call_reads (new_coordinator me voters) calls).completed)
      ⊎ (call ≡ poll)
      ⊎ IsMajority voters
          (hear me (hear_all me [] calls) call)
          (call_read (call_reads (new_coordinator me voters) calls) call).round_acks
answers-IsMajority me voters calls call v =
    call_read-IsMajority me voters (hear_all me [] calls)
      (call_reads (new_coordinator me voters) calls) call v
      (call_reads-IsRound me voters [] (new_coordinator me voters) calls v (refl, refl, tt, tt))
