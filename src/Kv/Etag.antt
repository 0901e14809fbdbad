-- ===== src/Kv/Etag.antt =====
-- command.rs: the ETags of the records.
use mathlib.Core.List.{append_cancel_right, append_cancel_left}
use basisdb.Base.{
  ℕ, ◌<◌, ◌≡◌, sym, ◌∙◌, some, [], ◌∷◌, lookup, decimal, decimal-injective, arith, u64_mod,
}
use basisdb.Kv.Names.{KvName, name_keyed}
use basisdb.Kv.Command.{KvState, KvRecord, etag_for}
use basisdb.Kv.Valid.{IsValid}

etag_for-injective : (n m : ℕ) → n < u64_mod → m < u64_mod → etag_for n ≡ etag_for m → n ≡ m
unfolding etag_for
etag_for-injective n m n_fits m_fits h =
    decimal-injective 20 n m (ground (arith, n_fits)) (ground (arith, m_fits)) (
      append_cancel_right (decimal 20 n) (decimal 20 m) (34 ∷ [])
        (append_cancel_left (34 ∷ 99 ∷ 57 ∷ 45 ∷ []) _ _ h))

-- In a valid state two entries with the same ETag have the same generation, since the ETag
-- determines it.
pub same_etag :
    (s : KvState) (a b : KvName) (x y : KvRecord)
    → IsValid s
    → lookup a s.entries ≡ some x
    → lookup b s.entries ≡ some y
    → x.etag ≡ y.etag
    → x.generation ≡ y.generation
same_etag s a b x y v there here h =
    let left = v.entries_given a x there in
    let right = v.entries_given b y here in
    etag_for-injective x.generation y.generation (ground (arith, left.0, v.generation_fits))
      (ground (arith, right.0, v.generation_fits)) (sym left.1 ∙ h ∙ right.1)
