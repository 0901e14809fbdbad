-- ===== src/Kv/Retry.antt =====
-- command.rs: a mutation that is applied again.
use basisdb.Kv.Settled.{put_named-IsPutSettled, delete_named-IsDeleteSettled}
use basisdb.Base.{ℕ, ◌≡◌, refl, sym, ap, ◌∙◌, some, Result, ok, err, lookup, number_keyed, arith}
use basisdb.Kv.Rule.{client_of}
use basisdb.Kv.Names.{ConnectError, KvName, name_keyed}
use basisdb.Kv.Command.{
  KvState, KvCommand, PutCommand, DeleteCommand, put_named, check_put, apply_put, delete_named,
  check_delete, apply_delete, apply, put, delete, register_session, read_barrier,
}

-- A put is refused by its checks, or put under its name.
apply_put-checked :
    (s : KvState) (p : PutCommand) (c : Result KvName ConnectError)
    → check_put p ≡ c
    → apply_put s p ≡ elim c [ err e ↦ (s, err e) | ok name ↦ put_named s p name ]
unfolding apply_put
apply_put-checked s p c h =
    ap
      (λ (r : Result KvName ConnectError). elim r [
        | err e ↦ (s, err e)
        | ok name ↦ put_named s p name
      ])
      h

apply_delete-checked :
    (s : KvState) (d : DeleteCommand) (c : Result KvName ConnectError)
    → check_delete d ≡ c
    → apply_delete s d ≡ elim c [ err e ↦ (s, err e) | ok name ↦ delete_named s d name ]
unfolding apply_delete
apply_delete-checked s d c h =
    ap
      (λ (r : Result KvName ConnectError). elim r [
        | err e ↦ (s, err e)
        | ok name ↦ delete_named s d name
      ])
      h

apply_put-retry :
    (s t : KvState) (p : PutCommand) (c : Result KvName ConnectError)
    → check_put p ≡ c
    → lookup p.client_id t.sessions ≡ lookup p.client_id (apply_put s p).0.sessions
    → apply_put t p ≡ (t, (apply_put s p).1)
apply_put-retry s t p (err e) h same =
    apply_put-checked t p (err e) h ∙ ap (λ a. (t, a.1)) (sym (apply_put-checked s p (err e) h))
apply_put-retry s t p (ok name) h same =
    let first = apply_put-checked s p (ok name) h in
    apply_put-checked t p (ok name) h
    ∙ put_named-IsPutSettled s p name t (same ∙ ap (λ a. lookup p.client_id a.0.sessions) first)
    ∙ ap (λ a. (t, a.1)) (sym first)

apply_delete-retry :
    (s t : KvState) (d : DeleteCommand) (c : Result KvName ConnectError)
    → check_delete d ≡ c
    → lookup d.client_id t.sessions ≡ lookup d.client_id (apply_delete s d).0.sessions
    → apply_delete t d ≡ (t, (apply_delete s d).1)
apply_delete-retry s t d (err e) h same =
    apply_delete-checked t d (err e) h
    ∙ ap (λ a. (t, a.1)) (sym (apply_delete-checked s d (err e) h))
apply_delete-retry s t d (ok name) h same =
    let first = apply_delete-checked s d (ok name) h in
    apply_delete-checked t d (ok name) h
    ∙ delete_named-IsDeleteSettled s d name t
        (same ∙ ap (λ a. lookup d.client_id a.0.sessions) first)
    ∙ ap (λ a. (t, a.1)) (sym first)

-- A put or a delete that is applied to a state whose session for the client is the one that an
-- application of the same command left gives the answer of that application, an error or a
-- response, and leaves the state as it is.
pub apply_retry :
    (s t : KvState) (cmd : KvCommand) (client : ℕ)
    → client_of cmd ≡ some client
    → lookup client t.sessions ≡ lookup client (apply s cmd).0.sessions
    → apply t cmd ≡ (t, (apply s cmd).1)
unfolding apply
apply_retry s t register_session client h same = absurd (ground (arith, h))
apply_retry s t read_barrier client h same = refl
apply_retry s t (put p) client h same =
    let id : client ≡ p.client_id = ground (arith, h) in
    apply_put-retry s t p (check_put p) refl (
      ap (λ c. lookup c t.sessions) (sym id)
      ∙ same
      ∙ ap (λ c. lookup c (apply_put s p).0.sessions) id)
apply_retry s t (delete d) client h same =
    let id : client ≡ d.client_id = ground (arith, h) in
    apply_delete-retry s t d (check_delete d) refl (
      ap (λ c. lookup c t.sessions) (sym id)
      ∙ same
      ∙ ap (λ c. lookup c (apply_delete s d).0.sessions) id)
