-- ===== src/Kv/Names.antt =====
-- basisdb-node/src/command.rs: names, errors, and the validation of requests. A `ConnectError` of
-- the RPC library is its code and its message.
use Prim.Native.String.{String}
use basisdb.Base.{
  ℕ, ◌≡◌, ap, ◌∙◌, Bool, not, ◌&&◌, List, length, is_empty, ltb, ◌==◌, if◌then◌else◌, Result, ok,
  err, Text, Keyed, cmp_text, then_cmp, then_cmp-eq, eq-cmp_text, cmp_text_self,
}
use Prim.Native.Nat.{Ordering}

pub data Code : Type 0 where
  invalid_argument failed_precondition aborted resource_exhausted internal not_found unavailable :
      Code

pub record ConnectError : Type 0 where
  pub code : Code
  pub message : String

abbrev pub error : Code → String → ConnectError
error code message = record { code = code; message = message }

abbrev pub Checked : Type 0
Checked = Result (Unit {0}) ConnectError

abbrev pub max_value_bytes : ℕ
max_value_bytes = 65536

abbrev pub max_namespace_bytes : ℕ
max_namespace_bytes = 255

abbrev pub max_key_bytes : ℕ
max_key_bytes = 1024

abbrev pub max_etag_bytes : ℕ
max_etag_bytes = 128

pub record KvName : Type 0 where
  pub namespace : Text
  pub key : Text

-- The derived `Ord`: by namespace, then by key.
unfoldable pub cmp_name : KvName → KvName → Ordering
cmp_name a b = then_cmp (cmp_text a.namespace b.namespace) (cmp_text a.key b.key)

pub eq-cmp_name : (a b : KvName) → cmp_name a b ≡ Ordering.eq → a ≡ b
unfolding cmp_name
eq-cmp_name a b h =
    let both = then_cmp-eq (cmp_text a.namespace b.namespace) (cmp_text a.key b.key) h in
    let first = eq-cmp_text a.namespace b.namespace both.0 in
    let second = eq-cmp_text a.key b.key both.1 in
    ap (λ n. name_of n a.key) first ∙ ap (name_of b.namespace) second
  where
    name_of : Text → Text → KvName
    name_of namespace key = record { namespace = namespace; key = key }

pub cmp_name_self : (a : KvName) → cmp_name a a ≡ Ordering.eq
unfolding cmp_name
cmp_name_self a =
    ap (λ r. then_cmp r (cmp_text a.key a.key)) (cmp_text_self a.namespace) ∙ cmp_text_self a.key

instance unfoldable pub name_keyed : Keyed KvName
name_keyed = record { cmp = cmp_name; eq_of_cmp = eq-cmp_name; cmp_self = cmp_name_self }

-- `KvName::new`
unfoldable pub new_name : Text → Text → Result KvName ConnectError
new_name namespace key =
    if is_empty namespace
    then err (error invalid_argument "namespace must not be empty")
    else if ltb max_namespace_bytes (length namespace)
    then err (error invalid_argument "namespace exceeds 255-byte limit")
    else if is_empty key
    then err (error invalid_argument "key must not be empty")
    else if ltb max_key_bytes (length key)
    then err (error invalid_argument "key exceeds 1024-byte limit")
    else ok (record { namespace = namespace; key = key })

unfoldable pub validate_mutation_request : ℕ → ℕ → Checked
validate_mutation_request client_id sequence =
    if client_id == 0
    then err (error invalid_argument "client_id must be registered")
    else if sequence == 0
    then err (error invalid_argument "sequence must be positive")
    else ok tt

unfoldable pub validate_etag : Text → Checked
validate_etag etag =
    if ltb max_etag_bytes (length etag)
    then err (error invalid_argument "ETag exceeds 128-byte limit")
    else ok tt

-- The rest of a chain of checks.
abbrev pub and_then {ℓ} : {A B : Type ℓ} {E : Type ℓ} → Result A E → (A → Result B E) → Result B E
and_then (ok a) f = f a
and_then (err e) f = err e

unfoldable pub validate_put_preconditions : Text → Bool → Checked
unfolding validate_etag
validate_put_preconditions if_match if_none_match = and_then (validate_etag if_match) (λ _.
    if not (is_empty if_match) && if_none_match
    then err (error invalid_argument "if_match and if_none_match are mutually exclusive")
    else ok tt)

unfoldable pub validate_value : List ℕ → Checked
validate_value body =
    if ltb max_value_bytes (length body)
    then err (error resource_exhausted "value exceeds 65536-byte limit")
    else ok tt
