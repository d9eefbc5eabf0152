-- ===== src/Protocol/Reducer/Log.antt =====
-- The reducer's sessions as logs: the maps that are runs of the sequences 1, 2, 3, ..., and what the
-- map operations do to a run.
use harness_control_protocol.Base.{
  ℕ, zero, suc, ◌+◌, ◌≤◌, ◌<◌, String, ◌≡◌, refl, ap, Option, none, some, List, [], ◌∷◌, ◌++◌,
  arith, nat_eq, string_eq, length, get_elem?,
}
use harness_control_protocol.Base.Dict.{lookup, keys, values, Every}
use harness_control_protocol.Protocol.Event.{Event}
use harness_control_protocol.Protocol.Reducer.{
  Reducer, SessionEvents, or_empty, session_events, max_key, expected_sequence,
}

-- The entries are the sequences n, n + 1, ... of the session, each at its own key.
abbrev pub IsRun : String → ℕ → SessionEvents → Type 0
IsRun id n [] = Unit
IsRun id n ((k, e) ∷ m) = (k ≡ n) × (e.sequence ≡ n) × (e.session_id ≡ id) × IsRun id (suc n) m

-- The reducer's invariant: every session is a run from 1.
pub record IsWellFormed (r : Reducer) : Type 0 where
  pub runs : Every (λ id m. IsRun id 1 m) r

-- The abstract view of a session: its events in order.
unfoldable pub log : String → Reducer → List Event
log id r = values (session_events id r)

or_empty-IsRun :
    (id : String) (o : Option SessionEvents)
    → ((m : SessionEvents) → o ≡ some m → IsRun id 1 m)
    → IsRun id 1 (or_empty o)
or_empty-IsRun id none h = tt
or_empty-IsRun id (some m) h = h m refl

pub session_events-IsRun :
    (id : String) (r : Reducer) → IsWellFormed r → IsRun id 1 (session_events id r)
session_events-IsRun id r wf = or_empty-IsRun id (lookup id r) (wf.runs id)

next_key : ℕ → Option ℕ → ℕ
next_key n none = n
next_key n (some k) = k + 1

next_key-max_key :
    (id : String) (n : ℕ) (m : SessionEvents)
    → IsRun id n m
    → next_key n (max_key (keys m)) ≡ n + length m
unfolding next_key max_key
next_key-max_key id n [] h = omega arith
next_key-max_key id n ((k, e) ∷ m) h = ground (arith, next_key-max_key id (suc n) m h.3)

pub expected_sequence-IsRun :
    (id : String) (m : SessionEvents) → IsRun id 1 m → expected_sequence m ≡ suc (length m)
unfolding expected_sequence next_key
expected_sequence-IsRun id m h = ground (arith, next_key-max_key id 1 m h)

suc-shift : (n i : ℕ) → n + suc i ≡ suc n + i
suc-shift n i = omega arith

pub lookup_before :
    (id : String) (n k : ℕ) (m : SessionEvents) → IsRun id n m → k < n → lookup k m ≡ none
unfolding lookup
lookup_before id n k [] h lt = refl
lookup_before id n k ((j, e) ∷ m) h lt = ground (arith, lookup_before id (suc n) k m h.3)

pub lookup_after :
    (id : String) (n k : ℕ) (m : SessionEvents)
    → IsRun id n m
    → n + length m ≤ k
    → lookup k m ≡ none
unfolding lookup
lookup_after id n k [] h le = refl
lookup_after id n k ((j, e) ∷ m) h le = ground (arith, lookup_after id (suc n) k m h.3)

-- The entry at a key is the event at its place.
pub lookup-IsRun :
    (id : String) (n i : ℕ) (m : SessionEvents)
    → IsRun id n m
    → lookup (n + i) m ≡ get_elem? (values m) i
unfolding lookup
lookup-IsRun id n i [] h = refl
lookup-IsRun id n zero ((j, e) ∷ m) h = ground arith
lookup-IsRun id n (suc i) ((j, e) ∷ m) h =
    ground (arith, lookup-IsRun id (suc n) i m h.3, ap (λ k. lookup k m) (suc-shift n i))

pub append-IsRun :
    (id : String) (n k : ℕ) (m : SessionEvents) (e : Event)
    → IsRun id n m
    → k ≡ n + length m
    → e.sequence ≡ k
    → e.session_id ≡ id
    → IsRun id n (m ++ (k, e) ∷ [])
append-IsRun id n k [] e h p q s = (omega arith, omega arith, s, tt)
append-IsRun id n k ((j, x) ∷ m) e (a, b, c, h) p q s =
    (a, b, c, append-IsRun id (suc n) k m e h (omega arith) q s)

pub length-values : (m : SessionEvents) → length (values m) ≡ length m
length-values [] = refl
length-values ((k, e) ∷ m) = ap suc (length-values m)

pub values-append :
    (m : SessionEvents) (k : ℕ) (e : Event) → values (m ++ (k, e) ∷ []) ≡ values m ++ e ∷ []
values-append [] k e = refl
values-append ((j, x) ∷ m) k e = ap (◌∷◌ x) (values-append m k e)

-- The events of a session's source, numbered from n.
abbrev pub IsNumbered : String → ℕ → List Event → Type 0
IsNumbered id n [] = Unit
IsNumbered id n (e ∷ es) = (e.session_id ≡ id) × (e.sequence ≡ n) × IsNumbered id (suc n) es

pub get_elem?-IsNumbered :
    (id : String) (n i : ℕ) (es : List Event) {e : Event}
    → IsNumbered id n es
    → get_elem? es i ≡ some e
    → (e.session_id ≡ id) × (e.sequence ≡ n + i)
get_elem?-IsNumbered id n i [] h found = ground arith
get_elem?-IsNumbered id n zero (x ∷ es) h found = ground arith
get_elem?-IsNumbered id n (suc i) (x ∷ es) h found =
    ground (arith, get_elem?-IsNumbered id (suc n) i es h.2 found)
