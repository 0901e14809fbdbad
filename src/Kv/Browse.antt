-- ===== src/Kv/Browse.antt =====
-- basisdb-node/src/browse.rs: pages over the committed entries. Lists of a map are in the order of
-- its keys, so `range(start..)` leaves out the keys below `start`. A count of keys, which is at most
-- the number of entries in memory, is not checked for overflow. `none` is the panic of
-- `page[limit - 1]` where the limit is 0, which `page_limit` never gives.
use Prim.Native.Nat.{Ordering}
use basisdb.Base.{
  ℕ, Bool, true, false, not, ◌&&◌, ◌||◌, List, [], ◌∷◌, ◌++◌, length, is_empty, ltb, leb, ◌==◌,
  if◌then◌else◌, Result, ok, err, Text, Map, cmp_text, same_text, get_last?, Option, none, some,
  ◌+◌,
}
use basisdb.Kv.Names.{
  invalid_argument, ConnectError, error, Checked, KvName, cmp_name, max_key_bytes,
  max_namespace_bytes,
}
use basisdb.Kv.Command.{KvState, KvRecord}

-- The messages of the protocol.
pub record Namespace : Type 0 where
  pub name : Text
  pub key_count : ℕ

pub record ListNamespacesResponse : Type 0 where
  pub namespaces : List Namespace
  pub next_start_after : Text

pub record HeadResponse : Type 0 where
  pub namespace : Text
  pub key : Text
  pub etag : Text
  pub generation : ℕ
  pub size : ℕ

pub record ListResponse : Type 0 where
  pub entries : List HeadResponse
  pub next_start_after : Text

unfoldable pub page_limit : ℕ → Result ℕ ConnectError
page_limit limit =
    if limit == 0
    then ok 50
    else if leb limit 100
    then ok limit
    else err (error invalid_argument "page limit must not exceed 100")

unfoldable pub validate_namespace_cursor : Text → Checked
validate_namespace_cursor cursor =
    if ltb max_namespace_bytes (length cursor)
    then err (error invalid_argument "namespace cursor exceeds 255-byte limit")
    else ok tt

unfoldable pub validate_list : Text → Text → Text → Checked
validate_list namespace prefix start_after =
    if is_empty namespace || ltb max_namespace_bytes (length namespace)
    then err (error invalid_argument "namespace must contain 1 to 255 bytes")
    else if ltb max_key_bytes (length prefix) || ltb max_key_bytes (length start_after)
    then err (error invalid_argument "prefix and cursor must not exceed 1024 bytes")
    else ok tt

-- `<` of an ordering
abbrev pub is_less : Ordering → Bool
is_less Ordering.lt = true
is_less Ordering.eq = false
is_less Ordering.gt = false

-- `entries.range(start..)`
unfoldable pub range_from : KvName → Map KvName KvRecord → Map KvName KvRecord
range_from start [] = []
range_from start ((name, r) ∷ m) =
    let rest = range_from start m in if is_less (cmp_name name start) then rest else (name, r) ∷ m

-- `page.last().is_none_or(|last| last.name != namespace)`
abbrev pub is_another : Option Namespace → Text → Bool
is_another none namespace = true
is_another (some last) namespace = not (same_text last.name namespace)

-- `page[limit - 1].name`
abbrev pub name_or_empty : Option Namespace → Text
name_or_empty none = []
name_or_empty (some last) = last.name

-- The page that is full, where `page[limit - 1]` is read.
abbrev pub full_page : {A : Type 0} → ℕ → A → Option A
full_page limit page = if limit == 0 then none else some page

-- One more key for the last namespace of the page.
unfoldable pub count_key : List Namespace → List Namespace
count_key [] = []
count_key (n ∷ []) = record n { key_count = n.key_count + 1 } ∷ []
count_key (n ∷ k ∷ page) = n ∷ count_key (k ∷ page)

abbrev pub with_namespace : List Namespace → Text → List Namespace
with_namespace page namespace =
    if is_another (get_last? page) namespace
    then page ++ record { name = namespace; key_count = 0 } ∷ []
    else page

-- The loop of `namespaces`, with the page so far.
unfoldable pub collect_namespaces :
    Text → ℕ → List Namespace → Map KvName KvRecord → Option ListNamespacesResponse
unfolding count_key
collect_namespaces start_after limit page [] =
    some (record { namespaces = page; next_start_after = [] })
collect_namespaces start_after limit page ((name, r) ∷ m) =
    let skipped = collect_namespaces start_after limit page m in
    let counted =
      collect_namespaces start_after limit (count_key (with_namespace page name.namespace)) m in
    if same_text name.namespace start_after
    then skipped
    else if is_another (get_last? page) name.namespace && (length page == limit)
    then full_page limit
        (record { namespaces = page; next_start_after = name_or_empty (get_last? page) })
    else counted

unfoldable pub namespaces : KvState → Text → ℕ → Option ListNamespacesResponse
unfolding range_from collect_namespaces
namespaces s start_after limit =
    let start : KvName = record { namespace = start_after; key = [] } in
    collect_namespaces start_after limit [] (range_from start s.entries)

-- `starts_with`
unfoldable pub starts_with : Text → Text → Bool
starts_with text [] = true
starts_with [] (b ∷ prefix) = false
starts_with (a ∷ text) (b ∷ prefix) = (a == b) && starts_with text prefix

abbrev pub head_of : KvName → KvRecord → HeadResponse
head_of name r = record {
  namespace = name.namespace;
  key = name.key;
  etag = r.etag;
  generation = r.generation;
  size = length r.body;
}

-- The last key of a page that is full: `page[limit - 1].key`.
unfoldable pub last_key : Text → List HeadResponse → Text
last_key key [] = key
last_key key (head ∷ page) = last_key head.key page

-- The loop of `entries`, with the page so far.
unfoldable pub collect_entries :
    Text → Text → Text → ℕ → List HeadResponse → Map KvName KvRecord → Option ListResponse
unfolding starts_with last_key
collect_entries namespace prefix start_after limit page [] =
    some (record { entries = page; next_start_after = [] })
collect_entries namespace prefix start_after limit page ((name, r) ∷ m) =
    let skipped = collect_entries namespace prefix start_after limit page m in
    let taken =
      collect_entries namespace prefix start_after limit (page ++ head_of name r ∷ []) m in
    if not (same_text name.namespace namespace) || not (starts_with name.key prefix)
    then some (record { entries = page; next_start_after = [] })
    else if not (is_less (cmp_text start_after name.key))
    then skipped
    else if length page == limit
    then full_page limit (record { entries = page; next_start_after = last_key [] page })
    else taken

-- `prefix.max(start_after)`
abbrev pub later_text : Text → Text → Text
later_text a b = if is_less (cmp_text b a) then a else b

unfoldable pub entries : KvState → Text → Text → Text → ℕ → Option ListResponse
unfolding range_from collect_entries
entries s namespace prefix start_after limit =
    let start : KvName = record { namespace = namespace; key = later_text prefix start_after } in
    collect_entries namespace prefix start_after limit [] (range_from start s.entries)
