-- ===== src/Kv/Rule.antt =====
-- command.rs: a proof rule for `apply`, one case for each way that it ends.
use basisdb.Base.{
  ℕ, ◌+◌, ◌≡◌, refl, sym, ap, true, not, ◌&&◌, Option, none, some, is_empty, ltb, Result, ok, err,
  lookup, if_rule, result_rule, arith, u64_mod, number_keyed,
}
use basisdb.Kv.Names.{ConnectError, KvName, and_then, name_keyed}
use basisdb.Kv.Command.{
  KvState, KvCommand, PutCommand, DeleteCommand, PutResponse, DeleteResponse, KvApplyResult,
  Applied, SessionState, MutationRequest, MutationRejection, put_request, delete_request, reject,
  cached_for, cached_in, as_put, as_delete, put_stored, put_new, put_answered, put_named, check_put,
  apply_put, delete_removed, delete_new, delete_answered, delete_named, check_delete, apply_delete,
  register, apply, put, delete, register_session, read_barrier, put_done, delete_done, barrier_done,
  check_put_preconditions, none_or_other, generation_exhausted, etag_mismatch,
}

-- A request that the cache does not know has a session.
pub as_put-session :
    (o : Option SessionState) (q : ℕ) (r : MutationRequest)
    → and_then (cached_in o q r) as_put ≡ ok none
    → (old : SessionState) × (o ≡ some old)
as_put-session none q r h = absurd (ground (arith, h))
as_put-session (some old) q r h = (old, refl)

pub as_delete-session :
    (o : Option SessionState) (q : ℕ) (r : MutationRequest)
    → and_then (cached_in o q r) as_delete ≡ ok none
    → (old : SessionState) × (o ≡ some old)
as_delete-session none q r h = absurd (ground (arith, h))
as_delete-session (some old) q r h = (old, refl)

-- The client of a mutation.
abbrev pub client_of : KvCommand → Option ℕ
client_of register_session = none
client_of read_barrier = none
client_of (put p) = some p.client_id
client_of (delete d) = some d.client_id

-- By what `apply` does on each branch: `P` holds of the outcome of `cmd` when it holds of the state
-- as it was, of a registration, of a recorded rejection, and of a put and a delete carried out.
module _ (P : Applied → Type 0) (s : KvState) (cmd : KvCommand)
    (same : (answer : Result KvApplyResult ConnectError) → P (s, answer))
    (refused : (c q : ℕ) (r : MutationRequest) (x : MutationRejection) (old : SessionState)
      → client_of cmd ≡ some c
      → lookup c s.sessions ≡ some old
      → P (reject s c q r x))
    (stored : (p : PutCommand) (name : KvName) (old : SessionState)
      → cmd ≡ put p
      → check_put p ≡ ok name
      → lookup p.client_id s.sessions ≡ some old
      → check_put_preconditions (lookup name s.entries) p.if_match p.if_none_match ≡ ok tt
      → ltb (s.next_generation + 1) u64_mod ≡ true
      → P (put_stored s p name))
    (removed : (d : DeleteCommand) (name : KvName) (old : SessionState)
      → cmd ≡ delete d
      → check_delete d ≡ ok name
      → lookup d.client_id s.sessions ≡ some old
      → P (delete_removed s d name)) where
  put_answered_rule :
      (p : PutCommand) (name : KvName) (c : Result (Option PutResponse) ConnectError)
      → cmd ≡ put p
      → check_put p ≡ ok name
      → and_then
          (cached_for s p.client_id p.sequence (put_request name p.body p.if_match p.if_none_match))
          as_put
        ≡ c
      → P (put_answered s p name c)
  unfolding put_answered put_new cached_for
  put_answered_rule p name (err e) mine named h = same (err e)
  put_answered_rule p name (ok (some r)) mine named h = same (ok (put_done r))
  put_answered_rule p name (ok none) mine named h =
      let request = put_request name p.body p.if_match p.if_none_match in
      let old = as_put-session (lookup p.client_id s.sessions) p.sequence request h in
      result_rule P (check_put_preconditions (lookup name s.entries) p.if_match p.if_none_match)
        (λ u accepted.
          if_rule P (ltb (s.next_generation + 1) u64_mod)
            (λ room. stored p name old.0 mine named old.1 accepted room)
            (λ _.
              refused p.client_id p.sequence request generation_exhausted old.0 (ap client_of mine)
                old.1))
        (λ x _. refused p.client_id p.sequence request x old.0 (ap client_of mine) old.1)

  delete_answered_rule :
      (d : DeleteCommand) (name : KvName) (c : Result (Option DeleteResponse) ConnectError)
      → cmd ≡ delete d
      → check_delete d ≡ ok name
      → and_then (cached_for s d.client_id d.sequence (delete_request name d.if_match)) as_delete
        ≡ c
      → P (delete_answered s d name c)
  unfolding delete_answered delete_new cached_for
  delete_answered_rule d name (err e) mine named h = same (err e)
  delete_answered_rule d name (ok (some r)) mine named h = same (ok (delete_done r))
  delete_answered_rule d name (ok none) mine named h =
      let request = delete_request name d.if_match in
      let old = as_delete-session (lookup d.client_id s.sessions) d.sequence request h in
      let current = lookup name s.entries in
      if_rule P (not (is_empty d.if_match) && none_or_other current d.if_match)
        (λ _. refused d.client_id d.sequence request etag_mismatch old.0 (ap client_of mine) old.1)
        (λ _. removed d name old.0 mine named old.1)

  apply_put_rule : (p : PutCommand) → cmd ≡ put p → P (apply_put s p)
  unfolding apply_put put_named
  apply_put_rule p mine =
      result_rule P (check_put p)
        (λ name named.
          put_answered_rule p name
            (and_then
              (cached_for s p.client_id p.sequence
                (put_request name p.body p.if_match p.if_none_match))
              as_put)
            mine named refl)
        (λ e _. same (err e))

  apply_delete_rule : (d : DeleteCommand) → cmd ≡ delete d → P (apply_delete s d)
  unfolding apply_delete delete_named
  apply_delete_rule d mine =
      result_rule P (check_delete d)
        (λ name named.
          delete_answered_rule d name
            (and_then (cached_for s d.client_id d.sequence (delete_request name d.if_match))
              as_delete)
            mine named refl)
        (λ e _. same (err e))

  by_command : P (register s) → (k : KvCommand) → k ≡ cmd → P (apply s k)
  unfolding apply
  by_command registered register_session h = registered
  by_command registered read_barrier h = same (ok barrier_done)
  by_command registered (put p) h = apply_put_rule p (sym h)
  by_command registered (delete d) h = apply_delete_rule d (sym h)

  pub apply_rule : P (register s) → P (apply s cmd)
  apply_rule registered = by_command registered cmd refl
