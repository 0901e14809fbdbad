-- ===== src/Io/Examples.antt =====
-- Sessions and read index coordination at concrete inputs.
use basisdb.Base.{
  ℕ, put_key, ◌≡◌, ◌⊎◌, ◌≤◌, refl, true, false, List, [], ◌∷◌, length, arith, if◌then◌else◌,
  same_key, number_keyed, lookup, ◌+◌, ltb, ◌==◌, inl,
}
use basisdb.Io.Session.{
  SessionTracker, new_tracker, check_duplicate, record_completion, is_new, stale, duplicate,
}
use basisdb.Io.Once.{
  IsTracked, Call, register, complete, expire, run_calls, run_calls-IsTracked,
  check_duplicate-record_completion,
}
use basisdb.Io.ReadIndex.{
  ReadIndexCoordinator, new_coordinator, contains, request_read, check_quorum, record_ack,
  begin_heartbeat_round, complete_reads,
}
use basisdb.Io.Rounds.{
  ReadCall, request, begin, ack, poll, call_read, call_reads, hear, hear_all, IsMajority,
  answers-IsMajority,
}
use basisdb.Io.Quorum.{IsAnswer, answer_to, quorum_of, late_read-answered}

abbrev fresh : SessionTracker ℕ
fresh = new_tracker

fresh-IsTracked : IsTracked fresh
unfolding lookup
fresh-IsTracked = record { answered = λ c s h. absurd (ground (arith, h)) }

abbrev calls : List (Call ℕ)
calls = register ∷ complete 1 1 40 ∷ register ∷ expire 2 ∷ []

run_calls-IsTracked_example : IsTracked (run_calls fresh calls)
run_calls-IsTracked_example = run_calls-IsTracked fresh calls fresh-IsTracked

first_is_new : check_duplicate fresh 1 1 ≡ is_new
unfolding check_duplicate lookup
first_is_new = refl

check_duplicate-record_completion_example : check_duplicate (record_completion fresh 1 1 40) 1 1 ≡ (
    if same_key {K = ℕ} 1 1
    then if ltb 1 1 then is_new else if 1 == 1 then duplicate 40 else stale
    else check_duplicate fresh 1 1)
check_duplicate-record_completion_example =
    check_duplicate-record_completion fresh 1 1 1 1 40 fresh-IsTracked (omega arith) first_is_new

abbrev in_a_round : ReadIndexCoordinator
in_a_round = begin_heartbeat_round (new_coordinator 1 (1 ∷ 2 ∷ 3 ∷ []))

abbrev read_calls : List ReadCall
read_calls = request 9 ∷ begin ∷ []

answers-IsMajority_example :
    ((call_read (call_reads (new_coordinator 1 (1 ∷ 2 ∷ 3 ∷ [])) read_calls) (ack 2)).completed
      ≡ (call_reads (new_coordinator 1 (1 ∷ 2 ∷ 3 ∷ [])) read_calls).completed)
    ⊎ (ack 2 ≡ poll)
    ⊎ IsMajority
        (1 ∷ 2 ∷ 3 ∷ [])
        (hear 1 (hear_all 1 [] read_calls) (ack 2))
        (call_read (call_reads (new_coordinator 1 (1 ∷ 2 ∷ 3 ∷ [])) read_calls) (ack 2)).round_acks
answers-IsMajority_example = answers-IsMajority 1 (1 ∷ 2 ∷ 3 ∷ []) read_calls (ack 2) (inl refl)

-- The acknowledgement of the example answers the read.
read_is_answered :
    (call_read (call_reads (new_coordinator 1 (1 ∷ 2 ∷ 3 ∷ [])) read_calls) (ack 2)).completed
    ≡ record { id = 0; read_index = 9 } ∷ []
unfolding call_reads call_read request_read begin_heartbeat_round record_ack check_quorum
    complete_reads contains put_key
read_is_answered = refl

not_yet : contains in_a_round.round_acks 2 ≡ false
unfolding begin_heartbeat_round check_quorum contains
not_yet = refl

a_voter : contains in_a_round.voters 2 ≡ true
unfolding begin_heartbeat_round check_quorum contains
a_voter = refl

one_missing : quorum_of in_a_round ≤ length in_a_round.round_acks + 1
unfolding begin_heartbeat_round check_quorum
one_missing = omega arith

late_read-answered_example :
    IsAnswer (answer_to in_a_round 9) (record_ack (request_read in_a_round 9).0 2).completed
late_read-answered_example = late_read-answered in_a_round 9 2 not_yet a_voter one_missing
