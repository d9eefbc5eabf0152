-- ===== src/LocalActions/Policy/Satisfied.antt =====
-- The structured command policy of packages/hcp-runner/src/local-actions/index.ts against what it
-- promises, in terms of the policy's lists, the regular expressions and the resolved paths.
use harness_control_protocol.Base.{
  ◌≤◌, String, ◌<>◌, ◌≡◌, ◌≢◌, ◌↔◌, refl, ap, sym, true, false, Option, none, some, List, [], ◌∷◌,
  ◌++◌, All, arith, contains, string_eq, ok, ◌⊎◌, inl, inr, Bool-cases,
}
use text.Mathlib.Text.{starts_with}
use text.Mathlib.TextEquality.{starts_with_iff}
use text.Mathlib.TextLemmas.{append-nil}
use harness_control_protocol.LocalActions.Lease.{minimal, inherit, CommandPolicy}
use harness_control_protocol.LocalActions.Policy.{
  answer, Answer-cases, Platform, CommandRequest, join_space, network_ok, env_denied, listed,
  not_listed, any_pattern, argv_matches_policy, argv_allowed, realpath_for_policy, stays_inside,
  assert_path_inside_workspace, assert_command_policy_allows,
}

-- The list has the text at some place.
abbrev pub Occurs : String → List String → Type 0
Occurs x xs = (before : List String) × ((after : List String) × (xs ≡ before ++ x ∷ after))

contains-Occurs : (xs : List String) (x : String) → contains xs x ≡ true → Occurs x xs
contains-Occurs [] x h = absurd (ground arith)
contains-Occurs (y ∷ xs) x h = elim (string_eq.dec y x) [
  | yes same ↦ ([], (xs, ap (λ z. z ∷ xs) same))
  | no other ↦
      let (before, (after, at)) = contains-Occurs xs x (ground (arith, other)) in
      (y ∷ before, (after, ap (λ zs. y ∷ zs) at))
]

contains_middle :
    (before after : List String) (x : String) → contains (before ++ x ∷ after) x ≡ true
contains_middle [] after x = ground arith
contains_middle (y ∷ before) after x = ground (arith, contains_middle before after x)

Occurs-contains : (xs : List String) (x : String) → Occurs x xs → contains xs x ≡ true
Occurs-contains xs x (before, (after, at)) = rw at (contains_middle before after x)

-- The arguments with one space between them.
abbrev spaced : List String → String
spaced [] = ""
spaced (s ∷ ss) = " " <> (s <> spaced ss)

abbrev pub line_of : List String → String
line_of [] = ""
line_of (s ∷ ss) = s <> spaced ss

join_space-line_of : (argv : List String) → join_space argv ≡ line_of argv
unfolding join_space
join_space-line_of [] = refl
join_space-line_of (s ∷ []) = sym (append-nil s)
join_space-line_of (s ∷ t ∷ ts) = ap (λ z. s <> (" " <> z)) (join_space-line_of (t ∷ ts))

module _ (platform : Platform) where
  open platform use {realpath, relative, is_absolute, regex_test}

  -- One of the patterns matches the line, and those before it are valid and do not.
  pub record FirstMatch (line : String) (patterns : List String) : Type 0 where
    pub before : List String
    pub pattern : String
    pub after : List String
    pub at : patterns ≡ before ++ pattern ∷ after
    pub earlier : All (λ p. regex_test p line ≡ answer false) before
    pub matches : regex_test pattern line ≡ answer true

  any_pattern-FirstMatch :
      (line : String) (ps : List String)
      → any_pattern platform line ps ≡ ok true
      → FirstMatch line ps
  unfolding any_pattern
  any_pattern-FirstMatch line [] h = absurd (ground arith)
  any_pattern-FirstMatch line (p ∷ ps) h = elim (Answer-cases (regex_test p line)) [
    | inr (m, bad) ↦ absurd (ground (arith, bad))
    | inl (true, hit) ↦ record {
      before = [];
      pattern = p;
      after = ps;
      at = refl;
      earlier = tt;
      matches = hit;
    }
    | inl (false, miss) ↦
        let f = any_pattern-FirstMatch line ps (ground (arith, miss)) in
        record {
          before = p ∷ f.before;
          pattern = f.pattern;
          after = f.after;
          at = ap (λ zs. p ∷ zs) f.at;
          earlier = (miss, f.earlier);
          matches = f.matches;
        }
  ]

  any_pattern_middle :
      (line p : String) (before after : List String)
      → All (λ p. regex_test p line ≡ answer false) before
      → regex_test p line ≡ answer true
      → any_pattern platform line (before ++ p ∷ after) ≡ ok true
  unfolding any_pattern
  any_pattern_middle line p [] after earlier hit = ground (arith, hit)
  any_pattern_middle line p (q ∷ before) after (miss, earlier) hit =
      ground (arith, miss, any_pattern_middle line p before after earlier hit)

  FirstMatch-any_pattern :
      (line : String) (ps : List String)
      → FirstMatch line ps
      → any_pattern platform line ps ≡ ok true
  FirstMatch-any_pattern line ps f =
      rw f.at (any_pattern_middle line f.pattern f.before f.after f.earlier f.matches)

  -- The relative path is empty, or it neither begins with two dots nor is absolute.
  abbrev pub StaysInside : String → Type 0
  StaysInside child =
      (child ≡ "") ⊎ (((rest : String) → child ≢ ".." <> rest) × (is_absolute child ≡ false))

  stays_inside-StaysInside :
      (child : String) → stays_inside platform child ≡ true → StaysInside child
  unfolding stays_inside
  stays_inside-StaysInside child h = elim (string_eq.dec child "") [
    | yes same ↦ inl same
    | no other ↦ inr (
      λ rest at.
          let dotted = (starts_with_iff child "..").1 (rest, sym at) in
          absurd (ground (arith, other, dotted)),
      ground (arith, other),
    )
  ]

  StaysInside-stays_inside :
      (child : String) → StaysInside child → stays_inside platform child ≡ true
  unfolding stays_inside
  StaysInside-stays_inside child (inl same) = ground (arith, same)
  StaysInside-stays_inside child (inr (plain, relative_path)) =
      elim (Bool-cases (starts_with child "..")) [
        | inl dotted ↦
            let (rest, at) = (starts_with_iff child "..").0 dotted in absurd (plain rest (sym at))
        | inr undotted ↦ ground (arith, undotted, relative_path)
      ]

  -- What a command needs to pass the policy.
  pub record Satisfies (policy : CommandPolicy) (request : CommandRequest) : Type 0 where
    pub shell : request.use_shell ≡ true → policy.allow_shell ≡ true
    pub time : request.timeout_seconds ≤ policy.timeout_seconds
    pub network : policy.network_policy ≡ inherit
    pub environment : policy.env_policy ≡ minimal → request.env ≡ []
    pub not_denied :
        (names : List String)
        → policy.denied_executables ≡ some names
        → ¬ Occurs request.executable names
    pub allowed :
        (names : List String)
        → policy.allowed_executables ≡ some names
        → Occurs request.executable names
    pub arguments :
        (patterns : List String)
        → policy.argv_patterns ≡ some patterns
        → FirstMatch (line_of request.argv) patterns
    pub resolved_path : String
    pub resolved_root : String
    pub path_at : realpath request.cwd ≡ answer resolved_path
    pub root_at : realpath request.workspace_root ≡ answer resolved_root
    pub inside : StaysInside (relative resolved_root resolved_path)

  inside_at :
      (path root : String)
      → assert_path_inside_workspace platform path root ≡ ok tt
      → (p : String) × (r : String) × (realpath path ≡ answer p)
        × (realpath root ≡ answer r)
        × (stays_inside platform (relative r p) ≡ true)
  unfolding assert_path_inside_workspace realpath_for_policy
  inside_at path root h = elim (Answer-cases (realpath path)) [
    | inr (m, e) ↦ absurd (ground arith)
    | inl (p, e) ↦ elim (Answer-cases (realpath root)) [
      | inr (m, f) ↦ absurd (ground arith)
      | inl (r, f) ↦ (p, r, e, f, ground arith)
    ]
  ]

  -- The tests of the policy's lists.
  listed-Occurs :
      (names : Option (List String)) (s : String)
      → listed names s ≡ false
      → (l : List String) → names ≡ some l
      → ¬ Occurs s l
  unfolding listed
  listed-Occurs names s h l some_l there = ground (arith, some_l, Occurs-contains l s there)

  not_listed-Occurs :
      (names : Option (List String)) (s : String)
      → not_listed names s ≡ false
      → (l : List String) → names ≡ some l
      → Occurs s l
  unfolding not_listed
  not_listed-Occurs names s h l some_l = contains-Occurs l s (ground (arith, some_l))

  argv_allowed-FirstMatch :
      (patterns : Option (List String)) (argv : List String)
      → argv_allowed platform patterns argv ≡ ok true
      → (ps : List String) → patterns ≡ some ps
      → FirstMatch (line_of argv) ps
  unfolding argv_allowed argv_matches_policy
  argv_allowed-FirstMatch patterns argv h ps some_ps =
      any_pattern-FirstMatch (line_of argv) ps (ground (arith, some_ps, join_space-line_of argv))

  listed-false :
      (names : Option (List String)) (s : String)
      → ((l : List String) → names ≡ some l → ¬ Occurs s l)
      → listed names s ≡ false
  unfolding listed
  listed-false none s h = refl
  listed-false (some l) s h = elim (Bool-cases (contains l s)) [
    | inl there ↦ absurd (h l refl (contains-Occurs l s there))
    | inr absent ↦ absent
  ]

  not_listed-false :
      (names : Option (List String)) (s : String)
      → ((l : List String) → names ≡ some l → Occurs s l)
      → not_listed names s ≡ false
  unfolding not_listed
  not_listed-false none s h = refl
  not_listed-false (some l) s h = ground (arith, Occurs-contains l s (h l refl))

  argv_allowed-true :
      (patterns : Option (List String)) (argv : List String)
      → ((ps : List String) → patterns ≡ some ps → FirstMatch (line_of argv) ps)
      → argv_allowed platform patterns argv ≡ ok true
  unfolding argv_allowed argv_matches_policy
  argv_allowed-true none argv h = refl
  argv_allowed-true (some ps) argv h =
      rw (join_space-line_of argv) (FirstMatch-any_pattern (line_of argv) ps (h ps refl))

  pub assert_command_policy_allows-Satisfies :
      (policy : CommandPolicy) (request : CommandRequest)
      → assert_command_policy_allows platform policy request ≡ ok tt
      → Satisfies policy request
  unfolding assert_command_policy_allows network_ok env_denied
  assert_command_policy_allows-Satisfies policy request h =
      let (p, r, path_at, root_at, inside) =
        inside_at request.cwd request.workspace_root (ground arith) in
      record {
        shell = λ used. ground arith;
        time = ground arith;
        network = ground arith;
        environment = λ least. ground arith;
        not_denied = listed-Occurs policy.denied_executables request.executable (ground arith);
        allowed = not_listed-Occurs policy.allowed_executables request.executable (ground arith);
        arguments = argv_allowed-FirstMatch policy.argv_patterns request.argv (ground arith);
        resolved_path = p;
        resolved_root = r;
        path_at = path_at;
        root_at = root_at;
        inside = stays_inside-StaysInside (relative r p) inside;
      }

  Satisfies-assert_command_policy_allows :
      (policy : CommandPolicy) (request : CommandRequest)
      → Satisfies policy request
      → assert_command_policy_allows platform policy request ≡ ok tt
  unfolding assert_command_policy_allows network_ok env_denied assert_path_inside_workspace
      realpath_for_policy
  Satisfies-assert_command_policy_allows policy request s = ground (
    arith,
    s.shell,
    s.environment,
    listed-false policy.denied_executables request.executable s.not_denied,
    not_listed-false policy.allowed_executables request.executable s.allowed,
    argv_allowed-true policy.argv_patterns request.argv s.arguments,
    StaysInside-stays_inside (relative s.resolved_root s.resolved_path) s.inside,
  )

  -- A structured policy lets a command through exactly when a shell is only used if it is allowed,
  -- the timeout is at most the policy's, the network is inherited, a minimal environment gets no
  -- variables, the executable is not on the list of denied ones and on the list of allowed ones
  -- (where there are such lists), some pattern matches the arguments, joined by spaces, with all
  -- patterns before it valid and not matching (where there are patterns), and the directory and the
  -- workspace resolve to paths of which the path from the second to the first is empty, or neither
  -- begins with two dots nor is absolute. This refuses a directory inside the workspace whose name
  -- begins with two dots.
  pub assert_command_policy_allows_iff :
      (policy : CommandPolicy) (request : CommandRequest)
      → (assert_command_policy_allows platform policy request ≡ ok tt) ↔ Satisfies policy request
  assert_command_policy_allows_iff policy request = (
    assert_command_policy_allows-Satisfies policy request,
    Satisfies-assert_command_policy_allows policy request,
  )
