-- ===== src/Content/Quota.antt =====
-- The store keeps its bounds: what #prune leaves has room for the object that comes.
use harness_control_protocol.Base.{
  ℕ, ◌+◌, ◌-◌, ◌≤◌, ◌<◌, String, ◌≡◌, ◌⊎◌, refl, sym, ◌∙◌, Bool, true, Option, none, some, List, [],
  ◌∷◌, string_eq, ltb, length, ok, inl, inr, arith, Bool-cases,
}
use harness_control_protocol.Base.Dict.{
  Dict, lookup, values, NodupKeys, lookup-erase, erase-NodupKeys, insert-NodupKeys,
}
use harness_control_protocol.Base.Weights.{
  sum_of, length-erase, length-insert, total-erase, total-insert,
}
use harness_control_protocol.Base.Sort.{sort, insert_sorted}
use harness_control_protocol.Base.Utf8.{encode}
use harness_control_protocol.Content.{reference_ok, Format, Reference}
use harness_control_protocol.Content.Store.{
  Scope, Entry, Store, Published, Platform, byte_length, expires_before, can_stay, evict,
  prune_each, prune, new_reference, publish_text, publish, keep_entry, text_of, format_of,
  serializable, unserializable, open_content_store,
}

abbrev Entries : Type 0
Entries = Dict String Entry

abbrev total : Entries → ℕ
total d = sum_of byte_length (values d)

lookup-insert_sorted :
    (before : String × Entry → String × Entry → Bool) (j k : String) (e : Entry) (d : Entries)
    → lookup k d ≡ none
    → lookup j (insert_sorted before (k, e) d) ≡ lookup j ((k, e) ∷ d)
unfolding insert_sorted lookup
lookup-insert_sorted before j k e [] h = refl
lookup-insert_sorted before j k e ((i, f) ∷ d) h =
    ground (arith, lookup-insert_sorted before j k e d)

insert_sorted-NodupKeys :
    (before : String × Entry → String × Entry → Bool) (k : String) (e : Entry) (d : Entries)
    → lookup k d ≡ none
    → NodupKeys d
    → NodupKeys (insert_sorted before (k, e) d)
unfolding insert_sorted lookup
insert_sorted-NodupKeys before k e [] h u = (refl, tt)
insert_sorted-NodupKeys before k e ((i, f) ∷ d) h (fresh, u) =
    ground (arith, fresh, insert_sorted-NodupKeys before k e d, lookup-insert_sorted before i k e d)

lookup-sort :
    (before : String × Entry → String × Entry → Bool) (j : String) (d : Entries)
    → NodupKeys d
    → (lookup j (sort before d) ≡ lookup j d) × NodupKeys (sort before d)
unfolding sort lookup
lookup-sort before j [] u = (refl, tt)
lookup-sort before j ((k, e) ∷ d) (fresh, u) =
    let (same, sorted) = lookup-sort before j d u in
    let absent : lookup k (sort before d) ≡ none = (lookup-sort before k d u).0 ∙ fresh in
    (
      ground (arith, same, lookup-insert_sorted before j k e (sort before d) absent),
      insert_sorted-NodupKeys before k e (sort before d) absent sorted,
    )

all_absent : (d : Entries) → ((k : String) → lookup k d ≡ none) → d ≡ []
unfolding lookup
all_absent [] h = refl
all_absent ((i, f) ∷ d) h = absurd (ground (arith, h i))

-- There is room for `incoming` bytes and one more entry.
abbrev HasRoom : ℕ → Store → Type 0
HasRoom incoming st =
    (total st.entries + incoming ≤ st.max_total_bytes) × (length st.entries < 1024)

-- The loop of #prune: the entries that are left to visit are in the store, and either there is room
-- already, or every entry of the store is still to be visited.
record IsPruning (incoming size : ℕ) (rest : Entries) (st : Store) : Type 0 where
  unique : NodupKeys st.entries
  unique_rest : NodupKeys rest
  measured : total st.entries ≡ size
  present : (k : String) (e : Entry) → lookup k rest ≡ some e → lookup k st.entries ≡ some e
  bounded : incoming ≤ st.max_total_bytes
  progress :
      HasRoom incoming st ⊎ ((k : String) → lookup k rest ≡ none → lookup k st.entries ≡ none)

room_kept :
    (incoming : ℕ) (k : String) (e : Entry) (st : Store)
    → NodupKeys st.entries
    → lookup k st.entries ≡ some e
    → HasRoom incoming st
    → HasRoom incoming (evict k st)
room_kept incoming k e st u found (fits, few) = (
  omega (arith, total-erase byte_length k e st.entries u found),
  omega (arith, length-erase k st.entries),
)

stays :
    (now incoming size : ℕ) (id : String) (e : Entry) (rest : Entries) (st : Store)
    → IsPruning incoming size ((id, e) ∷ rest) st
    → can_stay now incoming size e st ≡ true
    → IsPruning incoming size rest st
unfolding can_stay lookup
stays now incoming size id e rest st p test = record {
  unique = p.unique;
  unique_rest = p.unique_rest.1;
  measured = p.measured;
  present = λ k f found. ground (arith, p.present k f, p.unique_rest.0, found);
  bounded = p.bounded;
  progress = inl (ground (arith, p.measured), ground arith);
}

leaves :
    (incoming size : ℕ) (id : String) (e : Entry) (rest : Entries) (st : Store)
    → IsPruning incoming size ((id, e) ∷ rest) st
    → IsPruning incoming (size - byte_length e) rest (evict id st)
unfolding lookup
leaves incoming size id e rest st p =
    let found : lookup id st.entries ≡ some e = p.present id e (ground arith) in
    record {
      unique = erase-NodupKeys id st.entries p.unique;
      unique_rest = p.unique_rest.1;
      measured = omega (arith, total-erase byte_length id e st.entries p.unique found, p.measured);
      present = λ k f there.
          ground (arith, p.present k f, p.unique_rest.0, there, lookup-erase k id st.entries);
      bounded = p.bounded;
      progress = elim p.progress [
        | inl room ↦ inl (room_kept incoming id e st p.unique found room)
        | inr covered ↦
            inr (λ k absent. ground (arith, covered k, absent, lookup-erase k id st.entries))
      ];
    }

-- What #prune promises of the store that it leaves.
record IsPruned (incoming : ℕ) (before after : Store) : Type 0 where
  unique : NodupKeys after.entries
  room : HasRoom incoming after
  same_object : after.max_object_bytes ≡ before.max_object_bytes
  same_total : after.max_total_bytes ≡ before.max_total_bytes

prune_each-IsPruned :
    (now incoming size : ℕ) (rest : Entries) (st : Store)
    → IsPruning incoming size rest st
    → IsPruned incoming st (prune_each now incoming rest size st)
unfolding prune_each
prune_each-IsPruned now incoming size [] st p = record {
  unique = p.unique;
  room = elim p.progress [
    | inl room ↦ room
    | inr covered ↦
        let nothing : st.entries ≡ [] =
          all_absent st.entries (λ k. covered k (unfold lookup in refl)) in
        (rw nothing (unfold sum_of in omega (arith, p.bounded)), rw nothing (omega arith))
  ];
  same_object = refl;
  same_total = refl;
}
prune_each-IsPruned now incoming size ((id, e) ∷ rest) st p =
    elim (Bool-cases (can_stay now incoming size e st)) [
      | inl stay ↦
          rw (stay, prune_each)
            (prune_each-IsPruned now incoming size rest st
              (stays now incoming size id e rest st p stay))
      | inr leave ↦
          let kept =
            prune_each-IsPruned now incoming (size - byte_length e) rest (evict id st)
              (leaves incoming size id e rest st p) in
          rw (leave, prune_each)
            (record {
              unique = kept.unique;
              room = kept.room;
              same_object = kept.same_object;
              same_total = kept.same_total;
            })
    ]

-- The store's bounds, and one entry for each key.
pub record IsWithin (st : Store) : Type 0 where
  pub unique : NodupKeys st.entries
  pub fits : total st.entries ≤ st.max_total_bytes
  pub few : length st.entries ≤ 1024
  pub limits : st.max_object_bytes ≤ st.max_total_bytes

prune-IsPruned :
    (now incoming : ℕ) (st : Store)
    → NodupKeys st.entries
    → incoming ≤ st.max_total_bytes
    → IsPruned incoming st (prune now incoming st)
unfolding prune
prune-IsPruned now incoming st u bounded =
    let sorted : Entries = sort expires_before st.entries in
    prune_each-IsPruned now incoming (total st.entries) sorted st (record {
      unique = u;
      unique_rest = (lookup-sort expires_before "" st.entries u).1;
      measured = refl;
      present = λ k e found. sym (lookup-sort expires_before k st.entries u).0 ∙ found;
      bounded = bounded;
      progress = inr (λ k absent. sym (lookup-sort expires_before k st.entries u).0 ∙ absent);
    })

keep_entry-IsWithin :
    (scope : Scope) (reference : Reference) (bytes : List ℕ) (before kept : Store)
    → IsPruned reference.byte_length before kept
    → IsWithin before
    → IsWithin (keep_entry scope reference bytes kept).0
unfolding keep_entry
keep_entry-IsWithin scope reference bytes before kept pruned within =
    let entry : Entry = record { scope = scope; reference = reference; bytes = bytes } in
    let limits : kept.max_object_bytes ≤ kept.max_total_bytes =
      rw (pruned.same_object, pruned.same_total) within.limits in
    elim (Bool-cases (reference_ok reference)) [
      | inl parsed ↦ rw parsed (record {
        unique = insert-NodupKeys reference.content_id entry kept.entries pruned.unique;
        fits = omega (
          arith,
          total-insert byte_length reference.content_id entry kept.entries,
          pruned.room.0,
        );
        few = omega (arith, length-insert reference.content_id entry kept.entries, pruned.room.1);
        limits = limits;
      })
      | inr refused ↦ rw refused (record {
        unique = pruned.unique;
        fits = omega (arith, pruned.room.0);
        few = omega (arith, pruned.room.1);
        limits = limits;
      })
    ]

publish_text-IsWithin :
    (platform : Platform) (scope : Scope) (format : Format) (cs : List ℕ) (id : String) (now : ℕ)
    (st : Store)
    → IsWithin st
    → IsWithin (publish_text platform scope format cs id now st).0
unfolding publish_text
publish_text-IsWithin platform scope format cs id now st within =
    let size : ℕ = length (encode cs) in
    elim (Bool-cases (ltb st.max_object_bytes size)) [
      | inl large ↦ rw large within
      | inr small ↦
          let bounded : size ≤ st.max_total_bytes = ground (arith, small, within.limits) in
          rw small (
            keep_entry-IsWithin scope (new_reference platform scope id now format (encode cs))
              (encode cs) st (prune now size st)
              (unfold new_reference in prune-IsPruned now size st within.unique bounded) within)
    ]

-- Whether it succeeds or throws, publish keeps a store in memory within its bounds: one entry for
-- each key, at most 1024 entries, at most the total of bytes that its limits allow, and an object
-- limit that is not above that total.
pub publish-IsWithin :
    (platform : Platform) (scope : Scope) (value : Published) (id : String) (now : ℕ) (st : Store)
    → IsWithin st
    → IsWithin (publish platform scope value id now st).0
unfolding publish
publish-IsWithin platform scope (serializable value) id now st within =
    publish_text-IsWithin platform scope (format_of value) (text_of value) id now st within
publish-IsWithin platform scope unserializable id now st within = within

pub open_content_store-IsWithin :
    (object_limit total_limit : Option ℕ) (st : Store)
    → open_content_store object_limit total_limit ≡ ok st
    → IsWithin st
open_content_store-IsWithin object_limit total_limit st h =
    let nothing : st.entries ≡ [] = unfold open_content_store in ground (arith, h) in
    let ordered : st.max_object_bytes ≤ st.max_total_bytes =
      unfold open_content_store in ground (arith, h) in
    record {
      unique = rw nothing tt;
      fits = rw nothing (unfold sum_of in omega arith);
      few = rw nothing (omega arith);
      limits = ordered;
    }
