-- ===== src/Kv/Types.antt =====
-- basisdb-node/src/command.rs: the commands, the responses of the protocol, the sessions, and the
-- state of the key-value machine.
use basisdb.Base.{
  ℕ, Bool, true, false, not, ◌&&◌, Option, none, List, [], Result, Text, Map, number_keyed,
  same_text,
}
use basisdb.Kv.Names.{
  invalid_argument, failed_precondition, resource_exhausted, ConnectError, error, KvName,
  name_keyed,
}

pub record PutCommand : Type 0 where
  pub client_id : ℕ
  pub sequence : ℕ
  pub namespace : Text
  pub key : Text
  pub body : List ℕ
  pub if_match : Text
  pub if_none_match : Bool

pub record DeleteCommand : Type 0 where
  pub client_id : ℕ
  pub sequence : ℕ
  pub namespace : Text
  pub key : Text
  pub if_match : Text

pub data KvCommand : Type 0 where
  register_session read_barrier : KvCommand
  put : PutCommand → KvCommand
  delete : DeleteCommand → KvCommand

-- The responses of the protocol.
pub record PutResponse : Type 0 where
  pub namespace : Text
  pub key : Text
  pub etag : Text
  pub generation : ℕ
  pub size : ℕ

pub record DeleteResponse : Type 0 where
  pub namespace : Text
  pub key : Text
  pub etag : Text
  pub generation : ℕ
  pub deleted : Bool

pub data KvApplyResult : Type 0 where
  registered : ℕ → KvApplyResult
  put_done : PutResponse → KvApplyResult
  delete_done : DeleteResponse → KvApplyResult
  barrier_done : KvApplyResult

pub record KvRecord : Type 0 where
  pub body : List ℕ
  pub etag : Text
  pub generation : ℕ

-- The fields of `MutationRequest::Put`: name, body, `if_match`, `if_none_match`.
pub data MutationRequest : Type 0 where
  put_request : KvName → List ℕ → Text → Bool → MutationRequest
  delete_request : KvName → Text → MutationRequest

pub data MutationRejection : Type 0 where
  key_exists etag_mismatch generation_exhausted : MutationRejection

pub data MutationResult : Type 0 where
  put_result : PutResponse → MutationResult
  delete_result : DeleteResponse → MutationResult
  rejected : MutationRejection → MutationResult

pub record SessionState : Type 0 where
  pub sequence : ℕ
  pub request : Option MutationRequest
  pub result : Option MutationResult

abbrev pub empty_session : SessionState
empty_session = record { sequence = 0; request = none; result = none }

pub record KvState : Type 0 where
  pub next_client_id : ℕ
  pub next_generation : ℕ
  pub entries : Map KvName KvRecord
  pub sessions : Map ℕ SessionState

-- `KvState::new`
abbrev pub new_state : KvState
new_state = record { next_client_id = 1; next_generation = 1; entries = []; sessions = [] }

abbrev pub Applied : Type 0
Applied = KvState × Result KvApplyResult ConnectError

abbrev pub connect_error : MutationRejection → ConnectError
connect_error key_exists = error failed_precondition "key already exists"
connect_error etag_mismatch = error failed_precondition "ETag precondition failed"
connect_error generation_exhausted = error resource_exhausted "kv generation space exhausted"

abbrev pub unknown_session : ConnectError
unknown_session = error invalid_argument "unknown client session"

abbrev pub same_flag : Bool → Bool → Bool
same_flag true b = b
same_flag false b = not b

abbrev pub same_name : KvName → KvName → Bool
same_name a b = same_text a.namespace b.namespace && same_text a.key b.key

-- `==` of `MutationRequest`
abbrev pub same_request : MutationRequest → MutationRequest → Bool
same_request (put_request n b m f) (put_request n' b' m' f') =
    same_name n n' && same_text b b' && same_text m m' && same_flag f f'
same_request (put_request n b m f) (delete_request n' m') = false
same_request (delete_request n m) (put_request n' b' m' f') = false
same_request (delete_request n m) (delete_request n' m') = same_name n n' && same_text m m'
