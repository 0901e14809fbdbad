-- ===== src/Io/Session.antt =====
-- basisdb-raft-io/src/session.rs: client sessions for duplicate detection. A client id is its
-- number; `R` is the type of responses.
use Prim.Native.Nat.{compare, Ordering}
use basisdb.Base.{
  ℕ, Bool, true, false, Option, none, some, [], length, ltb, if◌then◌else◌, Map, lookup, put_key,
  remove_key, number_keyed, add64,
}

pub record SessionRequest (T : Type 0) : Type 0 where
  pub client_id : ℕ
  pub sequence : ℕ
  pub payload : T

abbrev pub new_request : {T : Type 0} → ℕ → ℕ → T → SessionRequest T
new_request client_id sequence payload = record {
  client_id = client_id;
  sequence = sequence;
  payload = payload;
}

pub record ClientSession (R : Type 0) : Type 0 where
  pub last_sequence : ℕ
  pub last_response : Option R

pub data DuplicateCheck (R : Type 0) : Type 0 where
  is_new stale : DuplicateCheck R
  duplicate : R → DuplicateCheck R

pub record SessionTracker (R : Type 0) : Type 0 where
  pub sessions : Map ℕ (ClientSession R)
  pub next_client_id : ℕ

abbrev pub is_some : {A : Type 0} → Option A → Bool
is_some none = false
is_some (some a) = true

module _ {R : Type 0} where
  abbrev pub default_session : ClientSession R
  default_session = record { last_sequence = 0; last_response = none }

  abbrev pub new_tracker : SessionTracker R
  new_tracker = record { sessions = []; next_client_id = 1 }

  unfoldable pub register_client : SessionTracker R → SessionTracker R × ℕ
  unfolding add64
  register_client t =
      let id = t.next_client_id in
      (record { sessions = put_key id default_session t.sessions; next_client_id = add64 id 1 }, id)

  -- The inner match of `check_duplicate`.
  abbrev pub cached_response : Option R → DuplicateCheck R
  cached_response (some r) = duplicate r
  cached_response none = is_new

  abbrev pub check_order : Ordering → ClientSession R → DuplicateCheck R
  check_order Ordering.gt session = is_new
  check_order Ordering.eq session = cached_response session.last_response
  check_order Ordering.lt session = stale

  abbrev pub check_session : Option (ClientSession R) → ℕ → DuplicateCheck R
  check_session none sequence = is_new
  check_session (some session) sequence =
      check_order (compare sequence session.last_sequence) session

  unfoldable pub check_duplicate : SessionTracker R → ℕ → ℕ → DuplicateCheck R
  check_duplicate t client_id sequence = check_session (lookup client_id t.sessions) sequence

  -- `or_default`
  abbrev pub or_default : Option (ClientSession R) → ClientSession R
  or_default none = default_session
  or_default (some session) = session

  -- The session after `record_completion`.
  unfoldable pub completed_session : ClientSession R → ℕ → R → ClientSession R
  completed_session session sequence response =
      if ltb session.last_sequence sequence
      then record { last_sequence = sequence; last_response = some response }
      else session

  unfoldable pub record_completion : SessionTracker R → ℕ → ℕ → R → SessionTracker R
  unfolding completed_session
  record_completion t client_id sequence response =
      let session = or_default (lookup client_id t.sessions) in
      record t {
        sessions = put_key client_id (completed_session session sequence response) t.sessions;
      }

  unfoldable pub expire_session : SessionTracker R → ℕ → SessionTracker R × Bool
  expire_session t client_id = (
    record t { sessions = remove_key client_id t.sessions },
    is_some (lookup client_id t.sessions),
  )

  unfoldable pub is_registered : SessionTracker R → ℕ → Bool
  is_registered t client_id = is_some (lookup client_id t.sessions)

  abbrev pub session_count : SessionTracker R → ℕ
  session_count t = length t.sessions

  abbrev pub sequence_of : Option (ClientSession R) → Option ℕ
  sequence_of none = none
  sequence_of (some session) = some session.last_sequence

  unfoldable pub last_sequence_of : SessionTracker R → ℕ → Option ℕ
  last_sequence_of t client_id = sequence_of (lookup client_id t.sessions)
