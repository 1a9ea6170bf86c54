-- ===== src/Registration/Index/Content/Invariant.antt =====
-- What holds of every entry of the index, after any sequence of operations.
use cruvero_mcp_gateway.Prelude.{
  ◌≡◌, refl, true, false, List, [], ◌∷◌, none, some, Option, arith, is_empty, Bool-cases, inl, inr,
  eq_iff, Result, ok, err, All, keep,
}
use cruvero_mcp_gateway.Prelude.Texts.{Text, text_eq, trim_space, trim_space_idem}
use cruvero_mcp_gateway.Prelude.Maps.{Map, lookup, insert, lookup-insert}
use cruvero_mcp_gateway.Types.{ServerRecord, is_routable}
use cruvero_mcp_gateway.Registration.Index.{
  CapabilityIndex, new_capability_index, remove_server, upsert_server, servers_at, add_names,
  add_locked, add, add_all, rebuild, remove_names, remove_locked, remove, refresh_server,
}
use cruvero_mcp_gateway.Registration.Index.Entries.{
  find, find-upsert_server, find-remove_server, Distinct, lookup-remove_names,
}

-- Each id stands once in an entry.
abbrev pub DistinctIds : List ServerRecord → Type 0
DistinctIds [] = Unit
DistinctIds (s ∷ ss) = (find s.id ss ≡ none) × DistinctIds ss

-- A server that is routable.
abbrev pub Routable : ServerRecord → Type 0
Routable s = is_routable s.status ≡ true

-- The key is trimmed and not blank, and some server is listed; every listed one is routable and
-- has an id of its own.
abbrev pub IsEntry : Text × List ServerRecord → Type 0
IsEntry (key, ss) =
    (trim_space key ≡ key)
    × (is_empty key ≡ false)
    × (is_empty ss ≡ false)
    × All Routable ss
    × DistinctIds ss

abbrev pub IsTable : Map Text (List ServerRecord) → Type 0
IsTable m = All IsEntry m × Distinct m

pub record IsIndex (i : CapabilityIndex) : Type 0 where
  pub good_tools : IsTable i.tools
  pub good_resources : IsTable i.resources

upsert_server-All :
    (ss : List ServerRecord) (s : ServerRecord)
    → Routable s
    → All Routable ss
    → All Routable (upsert_server ss s)
unfolding upsert_server
upsert_server-All [] s r a = (r, tt)
upsert_server-All (x ∷ xs) s r a = ground (arith, upsert_server-All xs s r a.1)

upsert_server-DistinctIds :
    (ss : List ServerRecord) (s : ServerRecord) → DistinctIds ss → DistinctIds (upsert_server ss s)
unfolding upsert_server find
upsert_server-DistinctIds [] s d = ground arith
upsert_server-DistinctIds (x ∷ xs) s d = ground (
  arith,
  eq_iff x.id s.id,
  eq_iff s.id x.id,
  find-upsert_server x.id xs s,
  upsert_server-DistinctIds xs s d.1,
)

remove_server-All :
    (ss : List ServerRecord) (id : Text) → All Routable ss → All Routable (remove_server ss id)
unfolding remove_server keep
remove_server-All [] id a = tt
remove_server-All (x ∷ xs) id a = ground (arith, remove_server-All xs id a.1)

remove_server-DistinctIds :
    (ss : List ServerRecord) (id : Text) → DistinctIds ss → DistinctIds (remove_server ss id)
unfolding remove_server keep find
remove_server-DistinctIds [] id d = tt
remove_server-DistinctIds (x ∷ xs) id d =
    ground (arith, find-remove_server x.id id xs, remove_server-DistinctIds xs id d.1)

insert-All :
    (k : Text) (v : List ServerRecord) (m : Map Text (List ServerRecord))
    → IsEntry (k, v)
    → All IsEntry m
    → All IsEntry (insert k v m)
unfolding insert
insert-All k v [] e a = (e, tt)
insert-All k v ((j, w) ∷ m) e a = ground (arith, insert-All k v m e a.1)

insert-Distinct :
    (k : Text) (v : List ServerRecord) (m : Map Text (List ServerRecord))
    → Distinct m
    → Distinct (insert k v m)
unfolding insert lookup
insert-Distinct k v [] d = ground arith
insert-Distinct k v ((j, w) ∷ m) d =
    ground (arith, eq_iff j k, eq_iff k j, lookup-insert k j v m, insert-Distinct k v m d.1)

servers_at-All :
    (k : Text) (m : Map Text (List ServerRecord))
    → All IsEntry m
    → All Routable (servers_at k m) × DistinctIds (servers_at k m)
unfolding servers_at lookup
servers_at-All k [] a = (tt, tt)
servers_at-All k ((j, w) ∷ m) a = ground (arith, servers_at-All k m a.1)

upsert_server-ne :
    (ss : List ServerRecord) (s : ServerRecord) → is_empty (upsert_server ss s) ≡ false
unfolding upsert_server
upsert_server-ne [] s = refl
upsert_server-ne (x ∷ xs) s = ground arith

entered :
    (raw : Text) (s : ServerRecord) (m : Map Text (List ServerRecord))
    → is_empty (trim_space raw) ≡ false
    → Routable s
    → IsTable m
    → IsTable (insert (trim_space raw) (upsert_server (servers_at (trim_space raw) m) s) m)
entered raw s m e r t =
    let key = trim_space raw in
    let old = servers_at key m in
    let (a, d) = servers_at-All key m t.0 in
    (
      insert-All key (upsert_server old s) m
          (
            trim_space_idem raw,
            e,
            upsert_server-ne old s,
            upsert_server-All old s r a,
            upsert_server-DistinctIds old s d,
          )
          t.0,
      insert-Distinct key (upsert_server old s) m t.1,
    )

add_names-IsTable :
    (names : List Text) (s : ServerRecord) (m : Map Text (List ServerRecord))
    → Routable s
    → IsTable m
    → IsTable (add_names names s m)
unfolding add_names
add_names-IsTable [] s m r t = t
add_names-IsTable (raw ∷ names) s m r t = elim (Bool-cases (is_empty (trim_space raw))) [
  | inl e ↦ rw e (add_names-IsTable names s m r t)
  | inr e ↦ rw e (add_names-IsTable names s _ r (entered raw s m e r t))
]

remove_names-IsTable :
    (id : Text) (m : Map Text (List ServerRecord)) → IsTable m → IsTable (remove_names id m)
unfolding remove_names
remove_names-IsTable id [] t = t
remove_names-IsTable id ((k, ss) ∷ m) t = ground (
  arith,
  remove_names-IsTable id m (t.0.1, t.1.1),
  lookup-remove_names id k m t.1.0,
  remove_server-All ss id,
  remove_server-DistinctIds ss id,
)

new-IsIndex : IsIndex new_capability_index
unfolding new_capability_index
new-IsIndex = record { good_tools = (tt, tt); good_resources = (tt, tt) }

add-IsIndex : {i : CapabilityIndex} (s : ServerRecord) → IsIndex i → IsIndex (add i s)
unfolding add add_locked
add-IsIndex {i} s v = elim (Bool-cases (is_routable s.status)) [
  | inl r ↦ rw r (record {
    good_tools = add_names-IsTable s.capabilities.tools s i.tools r v.good_tools;
    good_resources = add_names-IsTable s.capabilities.resources s i.resources r v.good_resources;
  })
  | inr r ↦ rw r v
]

remove_locked-IsIndex : {i : CapabilityIndex} (id : Text) → IsIndex i → IsIndex (remove_locked i id)
unfolding remove_locked
remove_locked-IsIndex {i} id v = record {
  good_tools = remove_names-IsTable id i.tools v.good_tools;
  good_resources = remove_names-IsTable id i.resources v.good_resources;
}

add_all-IsIndex :
    (ss : List ServerRecord) {i : CapabilityIndex} → IsIndex i → IsIndex (add_all i ss)
unfolding add_all
add_all-IsIndex [] v = v
add_all-IsIndex (s ∷ ss) v = add_all-IsIndex ss (unfold add in add-IsIndex s v)

-- The operations that change an index. `E` is what the store fails with.
pub data Op (E : Type 0) : Type 0 where
  adds : ServerRecord → Op E
  removes : Text → Op E
  rebuilds : List ServerRecord → Op E
  refreshes : Text → Result E (Option ServerRecord) → Op E

module _ {E : Type 0} where
  -- A failed refresh leaves the index as it was.
  unfoldable pub step : CapabilityIndex → Op E → CapabilityIndex
  step i (adds s) = add i s
  step i (removes id) = remove i id
  step i (rebuilds ss) = rebuild i ss
  step i (refreshes id get) = elim (refresh_server i id get) [ ok j ↦ j | err e ↦ i ]

  unfoldable pub run : CapabilityIndex → List (Op E) → CapabilityIndex
  run i [] = i
  run i (o ∷ os) = run (step i o) os

  step-IsIndex : (i : CapabilityIndex) (o : Op E) → IsIndex i → IsIndex (step i o)
  unfolding step remove rebuild refresh_server
  step-IsIndex i (adds s) v = add-IsIndex s v
  step-IsIndex i (removes id) v = ground (arith, remove_locked-IsIndex id v)
  step-IsIndex i (rebuilds ss) v = add_all-IsIndex ss new-IsIndex
  step-IsIndex i (refreshes id (err e)) v = ground arith
  step-IsIndex i (refreshes id (ok none)) v = ground (arith, remove_locked-IsIndex id v)
  step-IsIndex i (refreshes id (ok (some s))) v =
      ground (arith, add-IsIndex s (remove_locked-IsIndex id v))

  run-IsIndex : (i : CapabilityIndex) (os : List (Op E)) → IsIndex i → IsIndex (run i os)
  unfolding run
  run-IsIndex i [] v = v
  run-IsIndex i (o ∷ os) v = run-IsIndex (step i o) os (step-IsIndex i o v)

  -- After any sequence of operations on a new index, every entry has a trimmed key that is not
  -- blank and at least one server, all its servers are routable and have different ids, and no key
  -- has two entries.
  pub run-new-IsIndex : (os : List (Op E)) → IsIndex (run new_capability_index os)
  run-new-IsIndex os = run-IsIndex new_capability_index os new-IsIndex
