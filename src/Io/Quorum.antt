-- ===== src/Io/Quorum.antt =====
-- read_index.rs: which reads a round completes.
use basisdb.Base.{
  ℕ, ◌+◌, ◌/◌, ◌≡◌, ◌≤◌, refl, sym, ap, ◌∙◌, inl, inr, Bool, true, false, List, [], ◌∷◌, ◌++◌, map,
  filter, length, leb, if◌then◌else◌, Map, put_key, number_keyed, Keyed, if_rule, arith, le→leb,
  length-append, Ordering-cases,
}
use mathlib.Core.List.{append_assoc, append-nil}
use basisdb.Io.ReadIndex.{
  PendingRead, ReadIndexResult, ReadIndexCoordinator, contains, request_read, is_due, result_of,
  complete_reads, check_quorum, record_ack,
}

-- The reads are answered in the order of the list.
complete_reads-completed :
    (entries : List (ℕ × PendingRead)) (c : ReadIndexCoordinator)
    → (complete_reads entries c).completed ≡ c.completed ++ map result_of entries
unfolding complete_reads
complete_reads-completed [] c = sym (append-nil c.completed)
complete_reads-completed (entry ∷ entries) c =
    complete_reads-completed entries _
    ∙ append_assoc c.completed (result_of entry ∷ []) (map result_of entries)

-- A quorum of the voters by number.
abbrev pub quorum_of : ReadIndexCoordinator → ℕ
quorum_of c = length c.voters / 2 + 1

-- The check for a quorum answers exactly the pending reads whose round is not after the current
-- one, in the order of the map, where a majority has acknowledged, and no read otherwise.
pub check_quorum-completed :
    (c : ReadIndexCoordinator)
    → (check_quorum c).completed ≡ (
        if leb (quorum_of c) (length c.round_acks)
        then c.completed ++ map result_of (filter (is_due c.current_round) c.pending)
        else c.completed)
unfolding check_quorum
check_quorum-completed c =
    if_rule
      (λ (x : ReadIndexCoordinator). x.completed ≡ (
        if leb (quorum_of c) (length c.round_acks)
        then c.completed ++ map result_of (filter (is_due c.current_round) c.pending)
        else c.completed))
      (leb (quorum_of c) (length c.round_acks))
      (λ e. rw e (complete_reads-completed (filter (is_due c.current_round) c.pending) c))
      (λ e. rw e refl)

put_key-split :
    {K V : Type 0} ⦃o : Keyed K⦄
    → (k : K) (v : V) (m : Map K V)
    → (before : Map K V) × (after : Map K V) × (put_key k v m ≡ before ++ (k, v) ∷ after)
unfolding put_key
put_key-split k v [] = ([], [], refl)
put_key-split ⦃o⦄ k v ((j, w) ∷ m) = elim (Ordering-cases (o.cmp k j)) [
  | inl e ↦ ([], (j, w) ∷ m, rw (e, put_key) refl)
  | inr (inl e) ↦ ([], m, rw (e, put_key) refl)
  | inr (inr e) ↦
      let rest = put_key-split k v m in
      ((j, w) ∷ rest.0, rest.1, rw (e, put_key) (ap (λ l. (j, w) ∷ l) rest.2))
]

filter-append :
    {A : Type 0} (p : A → Bool) (xs ys : List A) → filter p (xs ++ ys) ≡ filter p xs ++ filter p ys
filter-append p [] ys = refl
filter-append p (x ∷ xs) ys = ground (arith, filter-append p xs ys)

map-append : {A B : Type 0} (f : A → B) (xs ys : List A) → map f (xs ++ ys) ≡ map f xs ++ map f ys
map-append f [] ys = refl
map-append f (x ∷ xs) ys = ap (λ l. f x ∷ l) (map-append f xs ys)

-- A read is among the answers.
abbrev pub IsAnswer : ReadIndexResult → List ReadIndexResult → Type 0
IsAnswer r answers =
    (before : List ReadIndexResult) × (after : List ReadIndexResult) × (answers
      ≡ before ++ r ∷ after)

abbrev pub answer_to : ReadIndexCoordinator → ℕ → ReadIndexResult
answer_to c read_index = record { id = c.next_read_id; read_index = read_index }

-- A read that was just requested is due in the round that is going on.
requested-due :
    (c : ReadIndexCoordinator) (read_index : ℕ)
    → IsAnswer
        (answer_to c read_index)
        (map result_of (filter (is_due c.current_round) (request_read c read_index).0.pending))
unfolding request_read
requested-due c read_index =
    let read : PendingRead = record { read_index = read_index; round = c.current_round } in
    let split = put_key-split c.next_read_id read c.pending in
    let due = is_due c.current_round in
    let now : due (c.next_read_id, read) ≡ true = ground arith in
    let tail : filter due ((c.next_read_id, read) ∷ split.1)
        ≡ (c.next_read_id, read) ∷ filter due split.1 =
      ground (arith, now) in
    (
      map result_of (filter due split.0),
      map result_of (filter due split.1),
      ap (λ m. map result_of (filter due m)) split.2
          ∙ ap (map result_of) (filter-append due split.0 ((c.next_read_id, read) ∷ split.1))
          ∙ ap (λ l. map result_of (filter due split.0 ++ l)) tail
          ∙ map-append result_of (filter due split.0) ((c.next_read_id, read) ∷ filter due split.1),
    )

-- Acknowledged by a voter that had not done so.
record_ack-new :
    (c : ReadIndexCoordinator) (from : ℕ)
    → contains c.round_acks from ≡ false
    → contains c.voters from ≡ true
    → record_ack c from ≡ check_quorum (record c { round_acks = c.round_acks ++ from ∷ [] })
unfolding record_ack
record_ack-new c from new voter = rw (new, voter) refl

-- Where one acknowledgement is missing for a majority of the round that is going on, a read that
-- is requested then is answered by the next acknowledgement of a voter that has not acknowledged
-- the round, with no round begun after the request.
pub late_read-answered :
    (c : ReadIndexCoordinator) (read_index from : ℕ)
    → contains c.round_acks from ≡ false
    → contains c.voters from ≡ true
    → quorum_of c ≤ length c.round_acks + 1
    → IsAnswer (answer_to c read_index) (record_ack (request_read c read_index).0 from).completed
unfolding request_read
late_read-answered c read_index from new voter enough =
    let asked = (request_read c read_index).0 in
    let due = requested-due c read_index in
    let acks = c.round_acks ++ from ∷ [] in
    let met : leb (quorum_of c) (length acks) ≡ true =
      le→leb _ _ (omega (arith, enough, length-append c.round_acks (from ∷ []))) in
    (
      c.completed ++ due.0,
      due.1,
      ap (λ (x : ReadIndexCoordinator). x.completed) (record_ack-new asked from new voter)
          ∙ check_quorum-completed (record asked { round_acks = acks })
          ∙ rw met (ap (λ l. c.completed ++ l) due.2)
          ∙ sym (append_assoc c.completed due.0 (answer_to c read_index ∷ due.1)),
    )
