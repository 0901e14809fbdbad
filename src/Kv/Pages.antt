-- ===== src/Kv/Pages.antt =====
-- browse.rs: what pages hold.
use basisdb.Base.{
  ℕ, Option, none, some, suc, ◌≡◌, ◌≤◌, refl, ap, true, not, ◌&&◌, ◌||◌, List, [], ◌∷◌, ◌++◌,
  length, get_last?, ◌==◌, Text, Map, cmp_text, same_text, arith, if_rule, length-append, All,
  All-append, eq-same_text,
}
use basisdb.Kv.Names.{KvName}
use basisdb.Kv.Command.{KvState, KvRecord}
use basisdb.Kv.Browse.{
  Namespace, HeadResponse, ListResponse, ListNamespacesResponse, is_less, is_another, count_key,
  with_namespace, full_page, name_or_empty, last_key, collect_namespaces, namespaces, starts_with,
  head_of, collect_entries, entries,
}

-- An entry belongs on the page.
abbrev pub IsListed : Text → Text → Text → HeadResponse → Type 0
IsListed namespace prefix start_after head =
    (head.namespace ≡ namespace)
    × (starts_with head.key prefix ≡ true)
    × (is_less (cmp_text start_after head.key) ≡ true)

-- A page within its limit, of entries that belong on it.
abbrev pub IsPage : Text → Text → Text → ℕ → List HeadResponse → Type 0
IsPage namespace prefix start_after limit page =
    (length page ≤ limit) × All (IsListed namespace prefix start_after) page

-- A result with the property, or a panic, which only a limit of 0 has.
abbrev pub IsReturned : {A : Type 0} → (A → Type 0) → ℕ → Option A → Type 0
IsReturned P limit none = limit ≡ 0
IsReturned P limit (some x) = P x

full_page-IsReturned :
    {A : Type 0} (P : A → Type 0) (limit : ℕ) (page : A)
    → P page
    → IsReturned P limit (full_page limit page)
full_page-IsReturned P limit page h =
    if_rule (IsReturned P limit) (limit == 0) (λ e. ground (arith, e)) (λ _. h)

abbrev pub HasPage : Text → Text → Text → ℕ → ListResponse → Type 0
HasPage namespace prefix start_after limit response =
    IsPage namespace prefix start_after limit response.entries

collect_entries-IsPage :
    (namespace prefix start_after : Text) (limit : ℕ) (page : List HeadResponse)
    (m : Map KvName KvRecord)
    → IsPage namespace prefix start_after limit page
    → IsReturned
        (HasPage namespace prefix start_after limit)
        limit
        (collect_entries namespace prefix start_after limit page m)
unfolding collect_entries
collect_entries-IsPage namespace prefix start_after limit page [] h = h
collect_entries-IsPage namespace prefix start_after limit page ((name, r) ∷ m) h =
    let P : Option ListResponse → Type 0 =
      IsReturned (HasPage namespace prefix start_after limit) limit in
    if_rule P (not (same_text name.namespace namespace) || not (starts_with name.key prefix))
      (λ _. h)
      (λ here.
        if_rule P (not (is_less (cmp_text start_after name.key)))
          (λ _. collect_entries-IsPage namespace prefix start_after limit page m h)
          (λ after.
            if_rule P (length page == limit)
              (λ _.
                full_page-IsReturned (HasPage namespace prefix start_after limit) limit
                  (record { entries = page; next_start_after = last_key [] page }) h)
              (λ room.
                collect_entries-IsPage namespace prefix start_after limit
                  (page ++ head_of name r ∷ []) m
                  (
                    ground (arith, h.0, room, length-append page (head_of name r ∷ [])),
                    All-append (IsListed namespace prefix start_after) page (head_of name r ∷ [])
                        h.1
                        (
                          (
                            eq-same_text name.namespace namespace (ground (arith, here)),
                            ground (arith, here),
                            ground (arith, after),
                          ),
                          tt,
                        ),
                  ))))

-- Only a limit of 0 panics, and a page of entries has at most the limit of them, and each is of
-- the namespace, has a key with the prefix, and has a key that is after the cursor.
pub entries-IsPage :
    (s : KvState) (namespace prefix start_after : Text) (limit : ℕ)
    → IsReturned
        (HasPage namespace prefix start_after limit)
        limit
        (entries s namespace prefix start_after limit)
unfolding entries
entries-IsPage s namespace prefix start_after limit =
    collect_entries-IsPage namespace prefix start_after limit [] _ (omega arith, tt)

length-count_key : (page : List Namespace) → length (count_key page) ≡ length page
unfolding count_key
length-count_key [] = refl
length-count_key (n ∷ []) = refl
length-count_key (n ∷ k ∷ page) = ap suc (length-count_key (k ∷ page))

abbrev pub HasRoom : ℕ → ListNamespacesResponse → Type 0
HasRoom limit response = length response.namespaces ≤ limit

collect_namespaces-le :
    (start_after : Text) (limit : ℕ) (page : List Namespace) (m : Map KvName KvRecord)
    → length page ≤ limit
    → IsReturned (HasRoom limit) limit (collect_namespaces start_after limit page m)
unfolding collect_namespaces
collect_namespaces-le start_after limit page [] h = h
collect_namespaces-le start_after limit page ((name, r) ∷ m) h =
    let P : Option ListNamespacesResponse → Type 0 = IsReturned (HasRoom limit) limit in
    let ns : Namespace = record { name = name.namespace; key_count = 0 } in
    if_rule P (same_text name.namespace start_after)
      (λ _. collect_namespaces-le start_after limit page m h)
      (λ _.
        if_rule P (is_another (get_last? page) name.namespace && (length page == limit))
          (λ _.
            full_page-IsReturned (HasRoom limit) limit
              (record { namespaces = page; next_start_after = name_or_empty (get_last? page) }) h)
          (λ room.
            collect_namespaces-le start_after limit (count_key (with_namespace page name.namespace))
              m
              (ground (
                arith,
                h,
                room,
                length-count_key (with_namespace page name.namespace),
                length-append page (ns ∷ []),
              ))))

-- A page of namespaces has at most the limit of them, and only a limit of 0 panics.
pub namespaces-le :
    (s : KvState) (start_after : Text) (limit : ℕ)
    → IsReturned (HasRoom limit) limit (namespaces s start_after limit)
unfolding namespaces
namespaces-le s start_after limit = collect_namespaces-le start_after limit [] _ (omega arith)
