-- ===== src/Accounts/Views.antt =====
-- What HcpAccountUsageReducer.accounts shows, against the sources of each account.
use harness_control_protocol.Base.{
  ℕ, zero, suc, ◌≤◌, String, ◌≡◌, refl, sym, ap, ◌∙◌, none, some, List, [], ◌∷◌, ◌++◌, map, arith,
  leb, ◌==◌, if◌then◌else◌, string_eq, nat_eq, All, All-append, get_elem?, get_elem?-All, any, Bool,
  true, some-injective, ◌≢◌, Bool-cases, Option-cases, inl, inr, subst, ok,
}
use mathlib.Core.List.{append-nil, append_assoc}
use harness_control_protocol.Base.Dict.{
  Dict, lookup, insert, lookup-insert, values, NodupKeys, insert-NodupKeys, values-All,
}
use harness_control_protocol.Accounts.{
  SourceState, Sources, Succeeded, UsageView, source_id, group_of, group_sources, newest,
  freshness_of, view_of, views_of, accounts,
}

-- The sources with a success for the account of a key, in order.
unfoldable pub succeeded : String → List SourceState → List Succeeded
succeeded key [] = []
succeeded key (s ∷ ss) = elim s.last_success [
  | none ↦ succeeded key ss
  | some a ↦ (if a.account.key == key then (a, s) ∷ [] else []) ++ succeeded key ss
]

group_sources_from :
    (key : String) (ss : List SourceState) (g : Dict String (List Succeeded))
    → group_of (lookup key (group_sources ss g)) ≡ group_of (lookup key g) ++ succeeded key ss
unfolding group_sources succeeded group_of
group_sources_from key [] g = sym (append-nil (group_of (lookup key g)))
group_sources_from key (s ∷ ss) g = elim (Option-cases s.last_success) [
  | inl never ↦ ground (arith, never, group_sources_from key ss g)
  | inr (a, success) ↦
      let own = a.account.key in
      let grown = group_of (lookup own g) ++ (a, s) ∷ [] in
      let step = group_sources_from key ss (insert own grown g) in
      ground (
        arith,
        success,
        step,
        lookup-insert key own grown g,
        append_assoc (group_of (lookup key g)) ((a, s) ∷ []) (succeeded key ss),
      )
]

group_sources-NodupKeys :
    (ss : List SourceState) (g : Dict String (List Succeeded))
    → NodupKeys g
    → NodupKeys (group_sources ss g)
unfolding group_sources
group_sources-NodupKeys [] g u = u
group_sources-NodupKeys (s ∷ ss) g u = elim (Option-cases s.last_success) [
  | inl never ↦ ground (arith, never, group_sources-NodupKeys ss g u)
  | inr (a, success) ↦
      let grown = group_of (lookup a.account.key g) ++ (a, s) ∷ [] in
      ground (
        arith,
        success,
        group_sources-NodupKeys ss (insert a.account.key grown g)
            (insert-NodupKeys a.account.key grown g u),
      )
]

succeeded-key :
    (key : String) (ss : List SourceState) → All (λ t. (t.0).account.key ≡ key) (succeeded key ss)
unfolding succeeded
succeeded-key key [] = tt
succeeded-key key (s ∷ ss) = elim (Option-cases s.last_success) [
  | inl never ↦ ground (arith, never, succeeded-key key ss)
  | inr (a, success) ↦ elim (string_eq.dec a.account.key key) [
    | yes same ↦ ground (arith, success, same, succeeded-key key ss)
    | no other ↦ ground (arith, success, other, succeeded-key key ss)
  ]
]

abbrev pub NotAfter : Succeeded → Succeeded → Type 0
NotAfter s t = (t.0).observed_at.ms ≤ (s.0).observed_at.ms

newest_ge : (x : Succeeded) (xs : List Succeeded) → NotAfter (newest x xs) x
unfolding newest
newest_ge x [] = omega arith
newest_ge x (y ∷ ys) = elim (Bool-cases (leb (y.0).observed_at.ms (x.0).observed_at.ms)) [
  | inl older ↦ ground (arith, older, newest_ge x ys)
  | inr newer ↦ ground (arith, newer, newest_ge y ys)
]

newest-All : (x : Succeeded) (xs : List Succeeded) → All (NotAfter (newest x xs)) (x ∷ xs)
unfolding newest
newest-All x [] = (omega arith, tt)
newest-All x (y ∷ ys) = elim (Bool-cases (leb (y.0).observed_at.ms (x.0).observed_at.ms)) [
  | inl older ↦ ground (arith, older, newest_ge x ys, newest-All x ys)
  | inr newer ↦ ground (arith, newer, newest_ge y ys, newest-All y ys)
]

-- Where an element goes when another one is put behind the first.
past_second : ℕ → ℕ
past_second zero = 0
past_second (suc i) = suc (suc i)

get_elem?-past_second :
    (x y : Succeeded) (ys : List Succeeded) (i : ℕ)
    → get_elem? (x ∷ y ∷ ys) (past_second i) ≡ get_elem? (x ∷ ys) i
unfolding past_second
get_elem?-past_second x y ys zero = refl
get_elem?-past_second x y ys (suc i) = refl

newest-get_elem? :
    (x : Succeeded) (xs : List Succeeded) → (i : ℕ) × (get_elem? (x ∷ xs) i ≡ some (newest x xs))
unfolding newest
newest-get_elem? x [] = (0, refl)
newest-get_elem? x (y ∷ ys) = elim (Bool-cases (leb (y.0).observed_at.ms (x.0).observed_at.ms)) [
  | inl older ↦
      let (i, found) = newest-get_elem? x ys in
      (past_second i, ground (arith, older, get_elem?-past_second x y ys i, found))
  | inr newer ↦ let (i, found) = newest-get_elem? y ys in (suc i, ground (arith, newer, found))
]

newest-key :
    (key : String) (ss : List SourceState) (x : Succeeded) (xs : List Succeeded)
    → x ∷ xs ≡ succeeded key ss
    → ((newest x xs).0).account.key ≡ key
newest-key key ss x xs same =
    let keyed : All (λ t. (t.0).account.key ≡ key) (x ∷ xs) =
      subst (All (λ t. (t.0).account.key ≡ key)) (sym same) (succeeded-key key ss) in
    let (i, found) = newest-get_elem? x xs in get_elem?-All _ (x ∷ xs) i keyed found

-- What a view shows: the newest of its account's successes, how fresh that is, and the sources of
-- the account.
pub record IsView (now max_age_ms : ℕ) (ss : List SourceState) (v : UsageView) : Type 0 where
  pub selected : Succeeded
  pub position : (i : ℕ) × (get_elem? (succeeded v.account.key ss) i ≡ some selected)
  pub newest : All (NotAfter selected) (succeeded v.account.key ss)
  pub observation : v.observation ≡ selected.0
  pub account : v.account ≡ (selected.0).account
  pub freshness : v.freshness ≡ freshness_of now max_age_ms selected
  pub sources : v.sources ≡ map source_id (succeeded v.account.key ss)

view_of-IsView :
    (now max_age_ms : ℕ) (ss : List SourceState) (key : String) (g : List Succeeded)
    → g ≡ succeeded key ss
    → All (IsView now max_age_ms ss) (view_of now max_age_ms g)
unfolding view_of
view_of-IsView now max_age_ms ss key [] same = tt
view_of-IsView now max_age_ms ss key (x ∷ xs) same =
    let s = newest x xs in
    let (i, found) = newest-get_elem? x xs in
    let own : (s.0).account.key ≡ key = newest-key key ss x xs same in
    let here : x ∷ xs ≡ succeeded (s.0).account.key ss =
      same ∙ ap (λ k. succeeded k ss) (sym own) in
    (
      record {
        selected = s;
        position = (i, ap (λ g. get_elem? g i) (sym here) ∙ found);
        newest = subst (All (NotAfter s)) here (newest-All x xs);
        observation = refl;
        account = refl;
        freshness = refl;
        sources = ap (map source_id) here;
      },
      tt,
    )

views_of-IsView :
    (now max_age_ms : ℕ) (ss : List SourceState) (gs : List (List Succeeded))
    → All (λ g. (key : String) × (g ≡ succeeded key ss)) gs
    → All (IsView now max_age_ms ss) (views_of now max_age_ms gs)
unfolding views_of
views_of-IsView now max_age_ms ss [] h = tt
views_of-IsView now max_age_ms ss (g ∷ gs) ((key, same), h) =
    All-append (IsView now max_age_ms ss) (view_of now max_age_ms g) _
      (view_of-IsView now max_age_ms ss key g same) (views_of-IsView now max_age_ms ss gs h)

-- Whether a view is about the account of a key.
abbrev pub is_about : String → UsageView → Bool
is_about key v = v.account.key == key

any-views_of :
    (now max_age_ms : ℕ) (key : String) (x : Succeeded) (xs : List Succeeded)
    (d : Dict String (List Succeeded))
    → lookup key d ≡ some (x ∷ xs)
    → ((newest x xs).0).account.key ≡ key
    → any (is_about key) (views_of now max_age_ms (values d)) ≡ true
unfolding lookup views_of view_of
any-views_of now max_age_ms key x xs [] found own = absurd (ground arith)
any-views_of now max_age_ms key x xs ((j, []) ∷ d) found own =
    ground (arith, any-views_of now max_age_ms key x xs d)
any-views_of now max_age_ms key x xs ((j, y ∷ ys) ∷ d) found own = elim (string_eq.dec key j) [
  | yes same ↦
      let here : y ∷ ys ≡ x ∷ xs = some-injective _ _ (ground (arith, same, found)) in
      let shown : any (is_about key) (views_of now max_age_ms (values ((key, x ∷ xs) ∷ d))) ≡ true =
        ground (arith, own) in
      subst (λ g. any (is_about key) (views_of now max_age_ms (values ((j, g) ∷ d))) ≡ true)
        (sym here) (ground (arith, shown))
  | no other ↦ ground (arith, other, found, any-views_of now max_age_ms key x xs d)
]

-- If some source has a success for the account of a key, accounts shows a view for an account with
-- that key.
any-accounts :
    (now max_age_ms : ℕ) (m : Sources) (views : List UsageView) (key : String)
    → accounts now max_age_ms m ≡ ok views
    → succeeded key (values m) ≢ []
    → any (is_about key) views ≡ true
unfolding accounts lookup group_of
any-accounts now max_age_ms m views key shown some_success =
    let ss = values m in
    let grouped = group_sources ss [] in
    let same : views_of now max_age_ms (values grouped) ≡ views = ground (arith, shown) in
    let members : group_of (lookup key grouped) ≡ succeeded key ss = group_sources_from key ss [] in
    elim (Option-cases (lookup key grouped)) [
      | inl missing ↦ absurd (some_success (sym members ∙ ap group_of missing))
      | inr ([], found) ↦ absurd (some_success (sym members ∙ ap group_of found))
      | inr (x ∷ xs, found) ↦
          subst (λ vs. any (is_about key) vs ≡ true) same
            (any-views_of now max_age_ms key x xs grouped found
              (newest-key key ss x xs (sym (ap group_of found) ∙ members)))
    ]

-- Each view that accounts shows has the newest success of its account's sources as its observation
-- - one of their successes, and none is newer -, the freshness of that success, and all sources of
-- the account in the order of the reducer's map.
pub accounts-IsView :
    (now max_age_ms : ℕ) (m : Sources) (views : List UsageView)
    → accounts now max_age_ms m ≡ ok views
    → All (IsView now max_age_ms (values m)) views
unfolding accounts lookup group_of
accounts-IsView now max_age_ms m views shown =
    let ss = values m in
    let grouped = group_sources ss [] in
    let gs =
      values-All (λ g. (key : String) × (g ≡ succeeded key ss)) grouped
        (group_sources-NodupKeys ss [] tt)
        (λ key g found. (key, ap group_of (sym found) ∙ group_sources_from key ss [])) in
    let all = views_of-IsView now max_age_ms ss (values grouped) gs in
    let same : views_of now max_age_ms (values grouped) ≡ views = ground (arith, shown) in
    subst (All (IsView now max_age_ms ss)) same all
